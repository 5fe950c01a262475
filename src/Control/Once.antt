-- ===== src/Control/Once.antt =====
-- pkg/bridge/control/server.go: how often a registration is started for an id.
use aries.Base.{
  ℕ, Bool, true, false, List, [], ◌∷◌, Option, none, some, Bytes, bytes_eq, bytes_eq_iff, lookup,
  insert, lookup-insert, lookup-insert_other, ◌≡◌, ◌≢◌, ◌⊎◌, inl, inr, refl, sym, subst, ap, ◌∙◌,
  ◌+◌, arith, ◌≤◌, Option-cases, Bool-cases, if◌then◌else◌,
}
use aries.Control.State.{RegisterRequest, Entry, Server}
use aries.Control.Entry.{registering_entry}
use aries.Control.Calls.{
  register_sandbox, register_new, release_sandbox, release_entry, begin_close, is_valid_request,
}
use aries.Control.Steps.{
  Step, Later, same, next, Reachable, register_call, release_call, close_call,
}
use aries.Control.Moves.{Moves, stay, admit, reserve, let_go, end_register, end_release, Step-Moves}

-- How many registrations of an id were started.
unfoldable pub count : Bytes → List Bytes → ℕ
count id [] = 0
count id (k ∷ ks) = (if bytes_eq id k then 1 else 0) + count id ks

-- A step starts no registration, or it starts one for an id without an entry while the service is
-- open.
abbrev Starts : Server → Server → Type 0
Starts s t =
    ((t.registered ≡ s.registered) × (s.closing ≡ true → t.closing ≡ true))
    ⊎ ((r : RegisterRequest) × (t.registered ≡ r.sandbox_id ∷ s.registered)
        × (lookup r.sandbox_id s.entries ≡ none)
        × (s.closing ≡ false)
        × (t.entries ≡ insert r.sandbox_id (registering_entry r) s.entries))

register_new-Starts :
    (r : RegisterRequest) (s : Server)
    → lookup r.sandbox_id s.entries ≡ none
    → Starts s (register_new r s).0
unfolding register_new
register_new-Starts r s new = elim (Bool-cases s.closing) [
  | inl closing ↦ inl (ground (arith, closing), ground (arith, closing))
  | inr still_up ↦ inr (r, ground (arith, still_up), new, still_up, ground (arith, still_up))
]

register_sandbox-Starts : (r : RegisterRequest) (s : Server) → Starts s (register_sandbox r s).0
unfolding register_sandbox
register_sandbox-Starts r s = elim (Bool-cases (is_valid_request r)) [
  | inr bad ↦ rw bad (inl (refl, λ h. h))
  | inl good ↦ elim (Option-cases (lookup r.sandbox_id s.entries)) [
    | inl new ↦ rw (good, new) (register_new-Starts r s new)
    | inr (e, found) ↦ rw (good, found) (inl (refl, λ h. h))
  ]
]

release_sandbox-Starts : (id : Bytes) (s : Server) → Starts s (release_sandbox id s).0
unfolding release_sandbox release_entry
release_sandbox-Starts id s = inl (ground arith, ground arith)

Step-Starts : (s t : Server) → Step s t → Starts s t
Step-Starts s t (register_call r) = register_sandbox-Starts r s
Step-Starts s t (release_call k) = release_sandbox-Starts k s
Step-Starts s t close_call = unfold begin_close in inl (refl, λ _. refl)
Step-Starts s t (Step.registered k e native endpoint err found h) = inl (refl, λ c. c)
Step-Starts s t (Step.released k e artifacts err found h) = inl (refl, λ c. c)

abbrev AtMostOnce : Bytes → Server → Type 0
AtMostOnce id s =
    (count id s.registered ≤ 1) × (lookup id s.entries ≡ none → count id s.registered ≡ 0)

still_none : (id : Bytes) (c : Bool) (o p : Option Entry) → Moves id c o p → p ≡ none → o ≡ none
still_none id c o p stay h = h
still_none id c o p (admit r _ _) h = cc
still_none id c o p reserve h = refl
still_none id c o p (let_go e) h = cc
still_none id c o p (end_register e native endpoint err _) h = cc
still_none id c o p (end_release e artifacts err _) h = cc

some-ne-none : {e : Entry} → some e ≢ none
some-ne-none h = cc

start-AtMostOnce :
    (id : Bytes) (r : RegisterRequest) (s : Server)
    → lookup r.sandbox_id s.entries ≡ none
    → AtMostOnce id s
    → (count id (r.sandbox_id ∷ s.registered) ≤ 1)
      × (lookup id (insert r.sandbox_id (registering_entry r) s.entries) ≡ none
          → count id (r.sandbox_id ∷ s.registered) ≡ 0)
unfolding count
start-AtMostOnce id r s new once = elim (Bool-cases (bytes_eq id r.sandbox_id)) [
  | inl equal ↦
      let same_id = (bytes_eq_iff id r.sandbox_id).0 equal in
      let none_yet = once.1 (ap (λ k. lookup k s.entries) same_id ∙ new) in
      let there =
        ap (λ k. lookup k (insert r.sandbox_id (registering_entry r) s.entries)) same_id
        ∙ lookup-insert r.sandbox_id (registering_entry r) s.entries in
      (ground (arith, equal, none_yet), λ h. absurd (some-ne-none (sym there ∙ h)))
  | inr other ↦ (
    ground (arith, other, once.0),
    λ h. ground (
      arith,
      other,
      once.1 (sym (lookup-insert_other id r.sandbox_id (registering_entry r) s.entries other) ∙ h),
    ),
  )
]

Step-AtMostOnce : (id : Bytes) (s t : Server) → Step s t → AtMostOnce id s → AtMostOnce id t
Step-AtMostOnce id s t step once = elim (Step-Starts s t step) [
  | inl (kept, _) ↦ (
    subst (λ l. count id l ≤ 1) (sym kept) once.0,
    λ h.
        ap (count id) kept
        ∙ once.1 (
            still_none id s.closing (lookup id s.entries) (lookup id t.entries)
              (Step-Moves id s t step) h),
  )
  | inr (r, started, new, _, inserted) ↦
      let (few, zero_when) = start-AtMostOnce id r s new once in
      (
        subst (λ l. count id l ≤ 1) (sym started) few,
        λ h. ap (count id) started ∙ zero_when (ap (lookup id) (sym inserted) ∙ h),
      )
]

once : (id : Bytes) (s : Server) → Reachable s → AtMostOnce id s
once id s same = unfold count in ground arith
once id s (next {t = t} before step) = Step-AtMostOnce id t s step (once id t before)

-- A registration is started at most once for an id in the whole life of the service.
pub registered_once : (id : Bytes) (s : Server) → Reachable s → count id s.registered ≤ 1
registered_once id s reached = (once id s reached).0

-- Once the service is closing, no registration is started any more, whatever calls still come in.
pub closing_admits_none :
    (s t : Server)
    → s.closing ≡ true
    → Later s t
    → (t.registered ≡ s.registered) × (t.closing ≡ true)
closing_admits_none s t closing same = (refl, closing)
closing_admits_none s t closing (next {t = u} before step) =
    let (kept, still) = closing_admits_none s u closing before in
    elim (Step-Starts u t step) [
      | inl (unchanged, stays) ↦ (unchanged ∙ kept, stays still)
      | inr (r, _, _, not_closing, _) ↦ absurd (ground (arith, still, not_closing))
    ]
