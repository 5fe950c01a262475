-- ===== src/Control/Release.antt =====
-- pkg/bridge/control/server.go: what `ReleaseSandbox` comes to.
use aries.Base.{
  true, false, some, Bytes, lookup, lookup-insert, ◌≡◌, ◌⊎◌, inl, inr, refl, sym, subst, ◌∙◌, arith,
  ◌≤◌, Option-cases, is_none,
}
use aries.Control.State.{releasing, released, Access, Entry, Server, answer}
use aries.Control.Entry.{reserved_entry, begin_release, release_locked}
use aries.Control.Calls.{release_sandbox, release_entry, is_identifier, await_release}
use aries.Control.Steps.{Later, Reachable, next, release_call}
use aries.Control.Valid.{Valid, State-cases}
use aries.Control.Reach.{Reachable-Valid}
use aries.Control.Onward.{rank, Later-Onward, Reachable-Later}

-- In release, or released.
abbrev pub IsLeaving : Entry → Type 0
IsLeaving e = (e.access.state ≡ released) ⊎ ((e.access.state ≡ releasing) × (e.busy ≡ true))

release_locked-IsLeaving : (id : Bytes) (e : Entry) → Valid id e → IsLeaving (release_locked e)
unfolding release_locked begin_release
release_locked-IsLeaving id e v = elim (State-cases e.access.state) [
  | inl h ↦ absurd (ground (arith, h, v))
  | inr (inl h) ↦ inr (ground arith, ground arith)
  | inr (inr (inl h)) ↦ inr (ground arith, ground arith)
  | inr (inr (inr (inl h))) ↦ inr (ground arith, ground arith)
  | inr (inr (inr (inr h))) ↦ inl (ground arith)
]

release_entry-there :
    (id : Bytes) (e : Entry) (s : Server)
    → lookup id s.entries ≡ some e
    → lookup id (release_entry id e s).0.entries ≡ some (release_locked e)
unfolding release_entry release_locked
release_entry-there id e s found =
    ground (arith, found, lookup-insert id (begin_release e) s.entries)

pub release_sandbox-IsLeaving :
    (id : Bytes) (s : Server)
    → Reachable s
    → is_identifier id ≡ true
    → (e : Entry) × (lookup id (release_sandbox id s).0.entries ≡ some e) × IsLeaving e
unfolding release_sandbox
release_sandbox-IsLeaving id s reached good = elim (Option-cases (lookup id s.entries)) [
  | inl new ↦ (
    reserved_entry id,
    ground (arith, good, new, lookup-insert id (reserved_entry id) s.entries),
    inl refl,
  )
  | inr (e, found) ↦
      let e' = release_locked e in
      let there = release_entry-there id e s found in
      (
        e',
        ground (arith, good, found, there),
        release_locked-IsLeaving id e (Reachable-Valid id s e reached found),
      )
]

pub same_entry : (e e' : Entry) → some e ≡ some e' → e ≡ e'
same_entry e e' h = cc

high :
    (e e' : Entry)
    → IsLeaving e
    → rank e.access.state ≤ rank e'.access.state
    → 3 ≤ rank e'.access.state
high e e' (inl h) up = ground (arith, h, up)
high e e' (inr (h, _)) up = ground (arith, h, up)

-- At any time after a release of an id, the entry is still in release or released.
pub leaving-Later :
    (id : Bytes) (s u : Server) (e : Entry)
    → Reachable s
    → is_identifier id ≡ true
    → Later (release_sandbox id s).0 u
    → lookup id u.entries ≡ some e
    → 3 ≤ rank e.access.state
leaving-Later id s u e reached good later found =
    let (e₀, found₀, leaving) = release_sandbox-IsLeaving id s reached good in
    let (e₁, found₁, (_, up, _)) =
      Later-Onward id (release_sandbox id s).0 u e₀ (next reached (release_call id)) later found₀ in
    subst (λ x. 3 ≤ rank x.access.state) (same_entry e₁ e (sym found₁ ∙ found))
      (high e₀ e₁ leaving up)

answer_states :
    (id : Bytes) (e : Entry) (a : Access)
    → Valid id e
    → 3 ≤ rank e.access.state
    → await_release e ≡ answer a
    → (a.state ≡ released) ⊎ ((a.state ≡ releasing) × (is_none a.cleanup_error ≡ false))
unfolding await_release
answer_states id e a v late answered = elim (State-cases e.access.state) [
  | inl h ↦ absurd (ground (arith, h, late))
  | inr (inl h) ↦ absurd (ground (arith, h, late))
  | inr (inr (inl h)) ↦ absurd (ground (arith, h, late))
  | inr (inr (inr (inl h))) ↦ inr (ground (arith, h, v, answered), ground (arith, h, v, answered))
  | inr (inr (inr (inr h))) ↦ inl (ground (arith, h, v, answered))
]

-- Whatever happens after a release of an id, the loop that waits for it ends only with a released
-- access, or with one in release that says why the last attempt failed.
pub release-answers :
    (id : Bytes) (s u : Server) (e : Entry) (a : Access)
    → Reachable s
    → is_identifier id ≡ true
    → Later (release_sandbox id s).0 u
    → lookup id u.entries ≡ some e
    → await_release e ≡ answer a
    → (a.state ≡ released) ⊎ ((a.state ≡ releasing) × (is_none a.cleanup_error ≡ false))
release-answers id s u e a reached good later found answered =
    let reached' =
      Reachable-Later (release_sandbox id s).0 u (next reached (release_call id)) later in
    answer_states id e a (Reachable-Valid id u e reached' found)
      (leaving-Later id s u e reached good later found) answered
