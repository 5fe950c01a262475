-- ===== src/Control/Close.antt =====
-- pkg/bridge/control/server.go: what the error of `Close` says of the sandboxes.
use aries.Base.{
  true, List, [], ◌∷◌, map, Option, none, some, Bytes, bytes_eq, bytes_eq_iff, lookup, keys, ◌≡◌,
  ◌⊎◌, inl, inr, refl, sym, Result, ok, err, subst, ap, ◌∙◌, arith, Option-cases, Bool-cases,
}
use aries.Core.Errors.{GoError, join-eq-none}
use aries.Control.State.{released, Access, Entry, Server}
use aries.Control.Entry.{reserved_entry}
use aries.Control.Calls.{begin_close, close_failure, close_failures, end_close}
use aries.Control.Steps.{Later, Reachable, same, next, close_call}
use aries.Control.Moves.{Moves, stay, admit, reserve, let_go, end_register, end_release, Step-Moves}
use aries.Control.Onward.{Later-Onward, Reachable-Later}
use aries.Control.Once.{closing_admits_none}
use aries.Control.Release.{same_entry}

-- No entry, or a released one.
abbrev IsGone : Option Entry → Type 0
IsGone o = (o ≡ none) ⊎ ((e : Entry) × (o ≡ some e) × (e.access.state ≡ released))

-- A released entry stays what it is.
released-stays :
    (id : Bytes) (s t : Server) (e : Entry)
    → Reachable s
    → Later s t
    → lookup id s.entries ≡ some e
    → e.access.state ≡ released
    → lookup id t.entries ≡ some e
released-stays id s t e reached later found done =
    let (e', found', (_, _, kept)) = Later-Onward id s t e reached later found in
    elim kept [ inl h ↦ absurd (h done) | inr h ↦ found' ∙ ap some h ]

Moves-none : (id : Bytes) (o p : Option Entry) → Moves id true o p → o ≡ none → IsGone p
Moves-none id o p stay h = inl h
Moves-none id o p (admit r _ k) h = absurd (ground (arith, k))
Moves-none id o p reserve h = inr (reserved_entry id, refl, refl)
Moves-none id o p (let_go e) h = absurd (ground (arith, h))
Moves-none id o p (end_register e native endpoint x _) h = absurd (ground (arith, h))
Moves-none id o p (end_release e artifacts x _) h = absurd (ground (arith, h))

-- An id that a closing service does not know gets no sandbox any more.
absent-Later :
    (id : Bytes) (s t : Server)
    → Reachable s
    → s.closing ≡ true
    → Later s t
    → lookup id s.entries ≡ none
    → IsGone (lookup id t.entries)
absent-Later id s t reached closing same h = inl h
absent-Later id s t reached closing (next {t = u} before step) h =
    let reached' = Reachable-Later s u reached before in
    elim (absent-Later id s u reached closing before h) [
      | inl none_yet ↦
          Moves-none id (lookup id u.entries) (lookup id t.entries)
            (subst (λ c. Moves id c (lookup id u.entries) (lookup id t.entries))
              (closing_admits_none s u closing before).1 (Step-Moves id u t step))
            none_yet
      | inr (e, found, done) ↦
          inr (e, released-stays id u t e reached' (next same step) found done, done)
    ]

failure_of :
    (outcomes : Bytes → Result GoError Access) (id : Bytes) (e : Entry) (m : List (Bytes × Entry))
    → lookup id m ≡ some e
    → close_failures (map outcomes (keys m)) ≡ []
    → close_failure (outcomes id) ≡ none
unfolding lookup
failure_of outcomes id e [] found h = cc
failure_of outcomes id e ((k, x) ∷ m) found h = elim (Bool-cases (bytes_eq id k)) [
  | inl equal ↦
      let same_id = (bytes_eq_iff id k).0 equal in
      elim (Option-cases (close_failure (outcomes k))) [
        | inl clean ↦ ap (λ j. close_failure (outcomes j)) same_id ∙ clean
        | inr (f, failed) ↦ absurd (ground (arith, failed, h))
      ]
  | inr other ↦ elim (Option-cases (close_failure (outcomes k))) [
    | inl clean ↦
        failure_of outcomes id e m (ground (arith, other, found)) (ground (arith, clean, h))
    | inr (f, failed) ↦ absurd (ground (arith, failed, h))
  ]
]

clean_outcome :
    (o : Result GoError Access)
    → close_failure o ≡ none
    → (a : Access) × (o ≡ ok a) × (a.state ≡ released)
unfolding close_failure
clean_outcome (err x) h = absurd (ground (arith, h))
clean_outcome (ok a) h = (a, refl, ground (arith, h))

-- What a call of ReleaseSandbox returned is the access of the sandbox at some time between `t` and
-- `u`, unless it is an error.
abbrev pub Observed : Bytes → Server → Server → Result GoError Access → Type 0
Observed id t u (err x) = true ≡ true
Observed id t u (ok a) =
    (v : Server) × (e : Entry) × Later t v
    × Later v u
    × (lookup id v.entries ≡ some e)
    × (a ≡ e.access)

gone-released : (o : Option Entry) (e : Entry) → o ≡ some e → IsGone o → e.access.state ≡ released
gone-released o e h (inl absent) = absurd (ground (arith, h, absent))
gone-released o e h (inr (e', there, done)) =
    subst (λ x. x.access.state ≡ released) (same_entry e' e (sym there ∙ h)) done

Observed-released :
    (id : Bytes) (t u : Server) (a : Access) (e : Entry)
    → Reachable t
    → Observed id t u (ok a)
    → a.state ≡ released
    → lookup id u.entries ≡ some e
    → e.access.state ≡ released
Observed-released id t u a e reached (v, e', before, after, there, seen) done found =
    let done' : e'.access.state ≡ released = ap (λ x. x.state) (sym seen) ∙ done in
    let stays = released-stays id v u e' (Reachable-Later t v reached before) after there done' in
    subst (λ x. x.access.state ≡ released) (same_entry e' e (sym stays ∙ found)) done'

-- A service whose Close reports no error has released everything: whatever other calls came in
-- between, every sandbox that it has an entry for when Close returns is released. The outcomes of
-- the release calls that Close makes are accesses seen while it ran, or errors.
pub close_releases :
    (s u : Server) (outcomes : Bytes → Result GoError Access) (id : Bytes) (e : Entry)
    → Reachable s
    → Later (begin_close s).0 u
    → ((k : Bytes) → Observed k (begin_close s).0 u (outcomes k))
    → end_close (map outcomes (begin_close s).1) ≡ none
    → lookup id u.entries ≡ some e
    → e.access.state ≡ released
unfolding begin_close end_close
close_releases s u outcomes id e reached later observed clean found =
    elim (Option-cases (lookup id s.entries)) [
      | inl absent ↦ gone-released (lookup id u.entries) e found (
          absent-Later id (record s { closing = true }) u (next reached close_call) refl later
            absent)
      | inr (e₀, known) ↦
          let (a, is_ok, done) = clean_outcome (outcomes id) (
            failure_of outcomes id e₀ s.entries known
              (join-eq-none (close_failures (map outcomes (keys s.entries))) clean)) in
          Observed-released id (record s { closing = true }) u a e (next reached close_call)
            (subst (Observed id (record s { closing = true }) u) is_ok (observed id)) done found
    ]
