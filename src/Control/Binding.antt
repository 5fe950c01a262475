-- ===== src/Control/Binding.antt =====
-- pkg/bridge/control/server.go: what `RegisterSandbox` answers, first and again.
use aries.Base.{
  true, Option, none, some, Bytes, bytes_eq_iff, bytes_eq_self, lookup, lookup-insert, ◌≡◌, ◌≢◌,
  ◌⊎◌, inl, inr, ◌↔◌, refl, sym, ap, ◌∙◌, arith, Option-cases, Bool-cases,
}
use aries.Control.State.{
  ready, releasing, released, RegisterRequest, Target, Access, Entry, Server, answer, waiting,
  refused, already_exists,
}
use aries.Control.Entry.{registering_entry, closed}
use aries.Control.Calls.{
  register_sandbox, register_new, register_again, is_valid_request, target_eq, metadata_eq,
  request_eq, await,
}
use aries.Control.Steps.{Later, Reachable, next, register_call}
use aries.Control.Valid.{Valid, is_ready_port, State-cases}
use aries.Control.Reach.{Reachable-Valid}
use aries.Control.Onward.{Later-Onward}

target_eq_iff : (t u : Option Target) → (target_eq t u ≡ true) ↔ (t ≡ u)
target_eq_iff none none = (λ _. refl, λ _. refl)
target_eq_iff none (some u) = (λ h. cc, λ h. cc)
target_eq_iff (some t) none = (λ h. cc, λ h. cc)
target_eq_iff (some t) (some u) = (
  (λ h.
      let a = (bytes_eq_iff t.runtime_id u.runtime_id).0 (ground (arith, h)) in
      let b = (bytes_eq_iff t.workdir u.workdir).0 (ground (arith, h)) in
      let c = (bytes_eq_iff t.exec_user u.exec_user).0 (ground (arith, h)) in
      λ i. some (record { runtime_id = a i; workdir = b i; exec_user = c i })),
  (λ h.
      ground
        (arith, h, bytes_eq_self t.runtime_id, bytes_eq_self t.workdir, bytes_eq_self t.exec_user)),
)

metadata_eq_iff : (t u : Option Bytes) → (metadata_eq t u ≡ true) ↔ (t ≡ u)
metadata_eq_iff none none = (λ _. refl, λ _. refl)
metadata_eq_iff none (some u) = (λ h. cc, λ h. cc)
metadata_eq_iff (some t) none = (λ h. cc, λ h. cc)
metadata_eq_iff (some t) (some u) =
    (λ h. ap some ((bytes_eq_iff t u).0 h), λ h. (bytes_eq_iff t u).1 (ground (arith, h)))

request_eq_iff : (r q : RegisterRequest) → (request_eq r q ≡ true) ↔ (r ≡ q)
unfolding request_eq
request_eq_iff r q = (
  (λ h.
      let a = (bytes_eq_iff r.sandbox_id q.sandbox_id).0 (ground (arith, h)) in
      let b = (target_eq_iff r.target q.target).0 (ground (arith, h)) in
      let c = (metadata_eq_iff r.metadata q.metadata).0 (ground (arith, h)) in
      λ i. record { sandbox_id = a i; target = b i; metadata = c i }),
  (λ h. rw h (
      ground (
        arith,
        bytes_eq_self q.sandbox_id,
        (target_eq_iff q.target q.target).1 refl,
        (metadata_eq_iff q.metadata q.metadata).1 refl,
      ))),
)

-- A registration that waits has made the entry.
waits_new :
    (r : RegisterRequest) (s : Server)
    → (register_sandbox r s).1 ≡ waiting 1
    → lookup r.sandbox_id (register_sandbox r s).0.entries ≡ some (registering_entry r)
unfolding register_sandbox register_new register_again
waits_new r s h = elim (Bool-cases (is_valid_request r)) [
  | inr bad ↦ absurd (ground (arith, h, bad))
  | inl good ↦ elim (Option-cases (lookup r.sandbox_id s.entries)) [
    | inr (e, found) ↦ absurd (ground (arith, h, good, found))
    | inl new ↦ elim (Bool-cases s.closing) [
      | inl closing ↦ absurd (ground (arith, h, good, new, closing))
      | inr still_up ↦
          ground
            (arith, good, new, still_up, lookup-insert r.sandbox_id (registering_entry r) s.entries)
    ]
  ]
]

-- After a registration was admitted, the id keeps its binding for good: at any later time the same
-- request is answered with the current access of the sandbox, a valid request that differs in
-- anything is refused, and neither changes the service.
pub register_again_lem :
    (r q : RegisterRequest) (s u : Server)
    → Reachable s
    → (register_sandbox r s).1 ≡ waiting 1
    → Later (register_sandbox r s).0 u
    → is_valid_request q ≡ true
    → q.sandbox_id ≡ r.sandbox_id
    → (e : Entry) × (lookup r.sandbox_id u.entries ≡ some e)
      × (((q ≡ r) × (register_sandbox q u ≡ (u, answer e.access)))
          ⊎ ((q ≢ r) × (register_sandbox q u ≡ (u, refused already_exists))))
unfolding register_sandbox register_again
register_again_lem r q s u reached waits later valid same_id =
    let (e, found, (binding, _, _)) =
      Later-Onward r.sandbox_id (register_sandbox r s).0 u (registering_entry r)
        (next reached (register_call r)) later (waits_new r s waits) in
    let found' = ap (λ k. lookup k u.entries) same_id ∙ found in
    (
      e,
      found,
      elim (Bool-cases (request_eq r q)) [
        | inl equal ↦
            inl (sym ((request_eq_iff r q).0 equal), ground (arith, valid, found', binding, equal))
        | inr different ↦ inr (
          (λ h. absurd (ground (arith, different, (request_eq_iff r q).1 (sym h)))),
          ground (arith, valid, found', binding, different),
        )
      ],
    )

answered_state :
    (id : Bytes) (e : Entry) (a : Access)
    → Valid id e
    → await 1 e ≡ some a
    → ((a.state ≡ ready) × (is_ready_port a.endpoint ≡ true))
      ⊎ (((a.state ≡ releasing) ⊎ (a.state ≡ released)) × (a.endpoint ≡ none))
unfolding await closed
answered_state id e a v answered = elim (State-cases e.access.state) [
  | inl h ↦ absurd (ground (arith, h, v))
  | inr (inl h) ↦ absurd (ground (arith, h, v, answered))
  | inr (inr (inl h)) ↦ inl (ground (arith, h, v, answered), ground (arith, h, v, answered))
  | inr (inr (inr (inl h))) ↦
      inr (inl (ground (arith, h, v, answered)), ground (arith, h, v, answered))
  | inr (inr (inr (inr h))) ↦
      inr (inr (ground (arith, h, v, answered)), ground (arith, h, v, answered))
]

-- A registration that was waited for is no longer pending: what its caller is then answered is a
-- ready access with an endpoint that has a port from 1 to 65535, or an access in release or
-- released, without an endpoint.
pub await-register :
    (id : Bytes) (s : Server) (e : Entry) (a : Access)
    → Reachable s
    → lookup id s.entries ≡ some e
    → await 1 e ≡ some a
    → ((a.state ≡ ready) × (is_ready_port a.endpoint ≡ true))
      ⊎ (((a.state ≡ releasing) ⊎ (a.state ≡ released)) × (a.endpoint ≡ none))
unfolding await closed
await-register id s e a reached found answered =
    let v = Reachable-Valid id s e reached found in answered_state id e a v answered
