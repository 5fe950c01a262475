-- ===== src/Sandbox/Held.antt =====
-- pkg/sandbox/sandbox.go: what is held of a sandbox's container and of its attachment to the task
-- environment, against what the sandbox says that it owns.
use aries.Base.{
  Bool, true, false, ◌&&◌, not, [], ◌++◌, none, Bytes, bytes_eq, bytes_eq_iff, codes, ◌≡◌, inl, inr,
  refl, sym, ap, ◌∙◌, arith, Bool-cases, Option-cases,
}
use aries.Core.Errors.{
  allocation_unconfirmed, errors_is, non_nil, none_in, none_in-append, non_nil-eq-nil, join-eq-none,
}
use aries.Sandbox.Request.{Request, DeploymentRequest}
use aries.Sandbox.Checks.{Command}
use aries.Sandbox.State.{Host, Sandbox, is_free}
use aries.Sandbox.Stop.{collect_logs, logs_if, stop_container, stop_network, stop_once}

-- What the interfaces of the deployment and of the task environment promise of the containers, each by
-- its identity, and of the attachment of one sandbox: that `Create` alone makes a container, only one
-- of the identity that it returns unless its error is ErrAllocationUnconfirmed, and that a Stop
-- succeeds only once what it was asked to stop is gone.
pub record Laws {W : Type 0} (host : Host W) (container : Bytes → W → Bool) (attachment : W → Bool)
    : Type 0 where
  pub new_id_quiet :
      (c : Bytes) (w : W)
      → container c (host.new_id w).0 ≡ container c w × attachment (host.new_id w).0 ≡ attachment w
  pub make_dir_quiet :
      (c dir : Bytes) (w : W)
      → container c (host.make_dir dir w).0 ≡ container c w
        × attachment (host.make_dir dir w).0 ≡ attachment w
  pub new_environment_quiet :
      (c : Bytes) (w : W)
      → container c (host.new_environment w).0 ≡ container c w
        × attachment (host.new_environment w).0 ≡ attachment w
  pub start_environment_quiet :
      (c : Bytes) (r : Request) (name : Bytes) (w : W)
      → container c (host.start_environment r name w).0 ≡ container c w
  pub validate_environment_quiet :
      (c : Bytes) (w : W) → container c (host.validate_environment w).0 ≡ container c w
  pub create_confirms :
      (c : Bytes) (r : DeploymentRequest) (w : W)
      → container c w ≡ false
      → (bytes_eq (host.create r w).1 c && not (bytes_eq (host.create r w).1 [])) ≡ false
      → errors_is (host.create r w).2 allocation_unconfirmed ≡ false
      → container c (host.create r w).0 ≡ false
  pub validate_makes_none :
      (c id : Bytes) (r : DeploymentRequest) (w : W)
      → container c w ≡ false
      → container c (host.validate id r w).0 ≡ false
  pub start_makes_none :
      (c id : Bytes) (w : W) → container c w ≡ false → container c (host.start id w).0 ≡ false
  pub running_makes_none :
      (c id : Bytes) (w : W) → container c w ≡ false → container c (host.running id w).0 ≡ false
  pub exec_makes_none :
      (c id : Bytes) (command : Command) (w : W)
      → container c w ≡ false
      → container c (host.exec id command w).0 ≡ false
  pub open_log_quiet :
      (c dir name : Bytes) (w : W)
      → container c (host.open_log dir name w).0 ≡ container c w
        × attachment (host.open_log dir name w).0 ≡ attachment w
  pub logs_stream_quiet :
      (c id : Bytes) (w : W)
      → container c (host.logs_stream id w).0 ≡ container c w
        × attachment (host.logs_stream id w).0 ≡ attachment w
  pub stop_makes_none :
      (c id : Bytes) (w : W) → container c w ≡ false → container c (host.stop id w).0 ≡ false
  pub stop_quiet : (id : Bytes) (w : W) → attachment (host.stop id w).0 ≡ attachment w
  pub stop_confirms :
      (id : Bytes) (w : W) → (host.stop id w).1 ≡ none → container id (host.stop id w).0 ≡ false
  pub stop_environment_quiet :
      (c : Bytes) (w : W) → container c (host.stop_environment w).0 ≡ container c w
  pub stop_environment_confirms :
      (w : W) → (host.stop_environment w).1 ≡ none → attachment (host.stop_environment w).0 ≡ false
  pub close_makes_none :
      (c : Bytes) (w : W) → container c w ≡ false → container c (host.close w).0 ≡ false

-- The sandbox owns the container with the identity.
abbrev pub owns_container : Bytes → Sandbox → Bool
owns_container c s = s.container_owned && bytes_eq s.container_id c

-- The laws are used at one identity `c`, which is any.
module _ {W : Type 0} (host : Host W) (container : Bytes → W → Bool) (attachment : W → Bool)
    (laws : Laws host container attachment) (c : Bytes) where
  -- What is there is owned, the container under its identity.
  abbrev pub Covers : Sandbox → W → Type 0
  Covers s w =
      ((container c w && not (owns_container c s)) ≡ false)
      × ((attachment w && not s.environment_owned) ≡ false)

  collect_logs_quiet :
      (s : Sandbox) (w : W)
      → container c (collect_logs host s w).0 ≡ container c w
        × attachment (collect_logs host s w).0 ≡ attachment w
  unfolding collect_logs
  collect_logs_quiet s w =
      let (w1, no_stdout) = host.open_log s.artifact_dir (codes "container.stdout.log") w in
      let (w2, no_stderr) = host.open_log s.artifact_dir (codes "container.stderr.log") w1 in
      let (c1, a1) = laws.open_log_quiet c s.artifact_dir (codes "container.stdout.log") w in
      let (c2, a2) = laws.open_log_quiet c s.artifact_dir (codes "container.stderr.log") w1 in
      let (c3, a3) = laws.logs_stream_quiet c s.container_id w2 in
      elim (Option-cases no_stdout) [
        | inr (e, h) ↦ (ground (arith, h, c1), ground (arith, h, a1))
        | inl h ↦ elim (Option-cases no_stderr) [
          | inr (e, k) ↦ (ground (arith, h, k, c1, c2), ground (arith, h, k, a1, a2))
          | inl k ↦ (ground (arith, h, k, c1, c2, c3), ground (arith, h, k, a1, a2, a3))
        ]
      ]

  logs_if_quiet :
      (collect : Bool) (s : Sandbox) (w : W)
      → container c (logs_if host collect s w).0 ≡ container c w
        × attachment (logs_if host collect s w).0 ≡ attachment w
  logs_if_quiet false s w = (refl, refl)
  logs_if_quiet true s w = collect_logs_quiet s w

  stop_container-Covers :
      (collect : Bool) (s : Sandbox) (w : W)
      → Covers s w
      → Covers (stop_container host collect s w).0 (stop_container host collect s w).1
  stop_container-Covers collect s w (held, a) = elim (Bool-cases s.container_owned) [
    | inr lost ↦ unfold stop_container in (ground (arith, lost, held), ground (arith, lost, a))
    | inl own ↦ elim (Option-cases (host.stop s.container_id w1).1) [
      | inl gone ↦
          unfold stop_container in
          (
            ground (arith, own, gone, absent gone),
            ground (arith, own, gone, a, quiet.1, laws.stop_quiet s.container_id w1),
          )
      | inr (e, there) ↦
          unfold stop_container in
          (
            ground (arith, own, there, still_covered own),
            ground (arith, own, there, a, quiet.1, laws.stop_quiet s.container_id w1),
          )
    ]
  ]
    where
      w1 : W
      w1 = (logs_if host collect s w).0

      w2 : W
      w2 = (host.stop s.container_id w1).0

      quiet : container c w1 ≡ container c w × attachment w1 ≡ attachment w
      quiet = logs_if_quiet collect s w

      other : bytes_eq s.container_id c ≡ false → container c w2 ≡ false
      other distinct =
          laws.stop_makes_none c s.container_id w1 (ground (arith, distinct, held, quiet.0))

      absent : (host.stop s.container_id w1).1 ≡ none → container c w2 ≡ false
      absent gone = elim (Bool-cases (bytes_eq s.container_id c)) [
        | inr distinct ↦ other distinct
        | inl equal ↦
            ap (λ k. container k w2) (sym ((bytes_eq_iff s.container_id c).0 equal))
            ∙ laws.stop_confirms s.container_id w1 gone
      ]

      still_covered :
          s.container_owned ≡ true → (container c w2 && not (owns_container c s)) ≡ false
      still_covered own = elim (Bool-cases (bytes_eq s.container_id c)) [
        | inl equal ↦ ground (arith, own, equal)
        | inr distinct ↦ ground (arith, other distinct)
      ]

  -- No container is without its attachment.
  abbrev pub IsAttached : W → Type 0
  IsAttached w = (container c w && not (attachment w)) ≡ false

  stop_container-IsAttached :
      (collect : Bool) (s : Sandbox) (w : W)
      → IsAttached w
      → IsAttached (stop_container host collect s w).1
  unfolding stop_container
  stop_container-IsAttached collect s w h =
      let w1 = (logs_if host collect s w).0 in
      let (same, quiet) = logs_if_quiet collect s w in
      let unmoved = laws.stop_quiet s.container_id w1 in
      elim (Bool-cases (container c w1)) [
        | inl there ↦ ground (arith, h, there, same, quiet, unmoved)
        | inr absent ↦
            ground (arith, h, absent, same, quiet, laws.stop_makes_none c s.container_id w1 absent)
      ]

  stop_network-IsAttached :
      (s : Sandbox) (w : W) → Covers s w → IsAttached w → IsAttached (stop_network host s w).1
  unfolding stop_network
  stop_network-IsAttached s w (held, _) h = ground (arith, held, h, laws.stop_environment_quiet c w)

  stop_network-Covers :
      (s : Sandbox) (w : W)
      → Covers s w
      → Covers (stop_network host s w).0 (stop_network host s w).1
  unfolding stop_network
  stop_network-Covers s w (held, a) =
      elim (Bool-cases (s.environment_owned && not s.container_owned)) [
        | inr kept ↦ (ground (arith, kept, held), ground (arith, kept, a))
        | inl own ↦ elim (Option-cases (host.stop_environment w).1) [
          | inl gone ↦ (
            ground (arith, own, gone, held, laws.stop_environment_quiet c w),
            ground (arith, own, gone, laws.stop_environment_confirms w gone),
          )
          | inr (e, there) ↦ (
            ground (arith, own, there, held, laws.stop_environment_quiet c w),
            ground (arith, own, there),
          )
        ]
      ]

  pub stop_once-Covers :
      (collect : Bool) (s : Sandbox) (w : W)
      → Covers s w
      → Covers (stop_once host collect s w).0 (stop_once host collect s w).1
  unfolding stop_once
  stop_once-Covers collect s w h =
      let (s1, w1, _) = stop_container host collect s w in
      stop_network-Covers s1 w1 (stop_container-Covers collect s w h)

  pub stop_once-IsAttached :
      (collect : Bool) (s : Sandbox) (w : W)
      → Covers s w
      → IsAttached w
      → IsAttached (stop_once host collect s w).1
  unfolding stop_once
  stop_once-IsAttached collect s w h k =
      let (s1, w1, _) = stop_container host collect s w in
      stop_network-IsAttached s1 w1 (stop_container-Covers collect s w h)
        (stop_container-IsAttached collect s w k)

module _ {W : Type 0} (host : Host W) where
  stop_container_done :
      (collect : Bool) (s : Sandbox) (w : W)
      → none_in (stop_container host collect s w).2 ≡ true
      → (stop_container host collect s w).0.container_owned ≡ false
  unfolding stop_container
  stop_container_done collect s w h = ground (arith, h)

  stop_network_done :
      (s : Sandbox) (w : W)
      → s.container_owned ≡ false
      → none_in (stop_network host s w).2 ≡ true
      → is_free (stop_network host s w).0 ≡ true
  unfolding stop_network
  stop_network_done s w free h = ground (arith, free, h)

  -- A removal without an error leaves nothing owned.
  pub stop_once_done :
      (collect : Bool) (s : Sandbox) (w : W)
      → (stop_once host collect s w).2 ≡ none
      → is_free (stop_once host collect s w).0 ≡ true
  unfolding stop_once
  stop_once_done collect s w h =
      let (s1, w1, errs) = stop_container host collect s w in
      let (s2, w2, more) = stop_network host s1 w1 in
      let none_left = non_nil-eq-nil (errs ++ more) (join-eq-none (non_nil (errs ++ more)) h) in
      let first : none_in errs ≡ true = ground (arith, none_left, none_in-append errs more) in
      let second : none_in more ≡ true = ground (arith, none_left, none_in-append errs more) in
      stop_network_done s1 w1 (stop_container_done collect s w first) second
