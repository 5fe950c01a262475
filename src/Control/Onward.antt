-- ===== src/Control/Onward.antt =====
-- pkg/bridge/control/server.go: how the entry of an id may change from one time to a later one.
use aries.Base.{
  ℕ, Bool, true, false, List, Option, none, some, Bytes, lookup, ◌≡◌, ◌≢◌, ◌⊎◌, inl, inr, refl,
  subst, ◌∙◌, arith, ◌≤◌,
}
use aries.Core.Errors.{GoError}
use aries.Control.State.{
  State, unspecified, registering, ready, releasing, released, Endpoint, Artifact, Entry, Server,
  register, release,
}
use aries.Control.Entry.{
  begin_release, release_locked, registration_error, record_failure, publish, finish_register,
  finish_release,
}
use aries.Control.Steps.{Later, same, next, Reachable}
use aries.Control.Valid.{Valid}
use aries.Control.Reach.{WhenThere, Reachable-entries}
use aries.Control.Moves.{Moves, stay, admit, reserve, let_go, end_register, end_release, Step-Moves}

-- The states in the order that an entry passes through.
abbrev pub rank : State → ℕ
rank unspecified = 0
rank registering = 1
rank ready = 2
rank releasing = 3
rank released = 4

-- How an entry may have changed: the binding stays, the state never goes back, and a released entry
-- stays as it is.
abbrev pub Onward : Entry → Entry → Type 0
Onward e e' =
    (e'.request ≡ e.request)
    × (rank e.access.state ≤ rank e'.access.state)
    × ((e.access.state ≢ released) ⊎ (e' ≡ e))

release_locked-Onward : (e : Entry) → Onward e (release_locked e)
unfolding release_locked begin_release
release_locked-Onward e = ground arith

finish_register-Onward :
    (id : Bytes) (e : Entry) (native : Bool) (endpoint : Option Endpoint) (err : Option GoError)
    → Valid id e
    → e.running ≡ some register
    → Onward e (finish_register native endpoint err e)
unfolding finish_register publish record_failure registration_error release_locked begin_release
finish_register-Onward id e native endpoint err v h = ground arith

finish_release-Onward :
    (id : Bytes) (e : Entry) (artifacts : List Artifact) (err : Option GoError)
    → Valid id e
    → e.running ≡ some release
    → Onward e (finish_release artifacts err e)
unfolding finish_release
finish_release-Onward id e artifacts err v h = ground arith

transitive : (e₁ e₂ e₃ : Entry) → Onward e₁ e₂ → Onward e₂ e₃ → Onward e₁ e₃
transitive e₁ e₂ e₃ a b = (b.0 ∙ a.0, ground (arith, a.1, b.1), kept a.2 b.2)
  where
    kept :
        (e₁.access.state ≢ released) ⊎ (e₂ ≡ e₁)
        → (e₂.access.state ≢ released) ⊎ (e₃ ≡ e₂)
        → (e₁.access.state ≢ released) ⊎ (e₃ ≡ e₁)
    kept (inl h) _ = inl h
    kept (inr h) (inl k) = inl (subst (λ e. e.access.state ≢ released) h k)
    kept (inr h) (inr k) = inr (k ∙ h)

-- The entry that there is, moved on.
abbrev Moved : Entry → Option Entry → Type 0
Moved e none = true ≡ false
Moved e (some e') = Onward e e'

Moves-Onward :
    (id : Bytes) (c : Bool) (e : Entry) (o p : Option Entry)
    → Moves id c o p
    → WhenThere id o
    → Moved e o
    → Moved e p
Moves-Onward id c e o p stay v m = m
Moves-Onward id c e o p (admit r _ _) v m = absurd (ground (arith, m))
Moves-Onward id c e o p reserve v m = absurd (ground (arith, m))
Moves-Onward id c e o p (let_go e') v m =
    transitive e e' (release_locked e') m (release_locked-Onward e')
Moves-Onward id c e o p (end_register e' native endpoint err h) v m =
    transitive e e' (finish_register native endpoint err e') m
      (finish_register-Onward id e' native endpoint err v h)
Moves-Onward id c e o p (end_release e' artifacts err h) v m =
    transitive e e' (finish_release artifacts err e') m
      (finish_release-Onward id e' artifacts err v h)

pub Reachable-Later : (s t : Server) → Reachable s → Later s t → Reachable t
Reachable-Later s t reached same = reached
Reachable-Later s t reached (next {t = u} before step) =
    next (Reachable-Later s u reached before) step

Later-Moved :
    (id : Bytes) (s t : Server) (e : Entry)
    → Reachable s
    → Later s t
    → lookup id s.entries ≡ some e
    → Moved e (lookup id t.entries)
Later-Moved id s t e reached same found = rw found (refl, ground arith, inr refl)
Later-Moved id s t e reached (next {t = u} before step) found =
    Moves-Onward id u.closing e (lookup id u.entries) (lookup id t.entries) (Step-Moves id u t step)
      (Reachable-entries id u (Reachable-Later s u reached before))
      (Later-Moved id s u e reached before found)

Moved-there :
    (e : Entry) (o : Option Entry) → Moved e o → (e' : Entry) × (o ≡ some e') × Onward e e'
Moved-there e none m = absurd (ground (arith, m))
Moved-there e (some e') m = (e', refl, m)

-- An entry is never removed. Whatever happens after a reachable state, the binding of an id stays
-- what it was, its state never goes back in the order registering, ready, releasing, released, and a
-- released entry stays exactly as it is, so that its id is never admitted again.
pub Later-Onward :
    (id : Bytes) (s t : Server) (e : Entry)
    → Reachable s
    → Later s t
    → lookup id s.entries ≡ some e
    → (e' : Entry) × (lookup id t.entries ≡ some e') × Onward e e'
Later-Onward id s t e reached later found =
    Moved-there e (lookup id t.entries) (Later-Moved id s t e reached later found)
