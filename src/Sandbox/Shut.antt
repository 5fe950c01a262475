-- ===== src/Sandbox/Shut.antt =====
-- pkg/sandbox/sandbox.go: what a Close of the manager does to what failed Starts left pending.
use aries.Base.{
  Bool, false, ◌&&◌, ◌||◌, not, List, [], ◌∷◌, Option, none, some, Bytes, ◌≡◌, ◌≢◌, ap, arith,
  Option-cases, ◌∙◌, ◌⊎◌, inl, inr,
}
use aries.Core.Errors.{GoError}
use aries.Sandbox.State.{Host, Sandbox, Manager}
use aries.Sandbox.Stop.{stop_container, stop_network, stop_once, stop_pending, close_deployment}
use aries.Sandbox.Held.{Laws, owns_container}

module _ {W : Type 0} (host : Host W) where
  close_deployment-closed :
      (m : Manager) (w : W)
      → (close_deployment host m w).0.closed ≡ some (close_deployment host m w).2
  unfolding close_deployment
  close_deployment-closed m w = elim (Option-cases m.closed) [
    | inl never ↦ ground (arith, never)
    | inr (r, once) ↦ ground (arith, once)
  ]

  -- The deployment is closed by the first Close that comes to it, and never again.
  abbrev ClosesOnce : Manager → W → Manager × W × Option GoError → Type 0
  ClosesOnce m w1 (m', w', failure) =
      (m'.closed ≡ some failure)
      × (((m.closed ≡ none) × (w' ≡ (host.close w1).0) × (failure ≡ (host.close w1).1))
          ⊎ ((m.closed ≡ some failure) × (w' ≡ w1)))

module _ {W : Type 0} (host : Host W) (container : Bytes → W → Bool) (attachment : W → Bool)
    (laws : Laws host container attachment) (c : Bytes) where
  -- One of the sandboxes owns the container.
  abbrev owned_in : List Sandbox → Bool
  owned_in [] = false
  owned_in (s ∷ ss) = owns_container c s || owned_in ss

  -- If the container is there, then a pending sandbox owns it.
  abbrev pub IsPending : List Sandbox → W → Type 0
  IsPending ss w = (container c w && not (owned_in ss)) ≡ false

  stop_once-absent :
      (s : Sandbox) (w : W)
      → container c w ≡ false
      → container c (stop_once host false s w).1 ≡ false
  unfolding stop_once stop_container stop_network
  stop_once-absent s w absent = ground (
    arith,
    absent,
    laws.stop_makes_none c s.container_id w absent,
    laws.stop_environment_quiet c w,
    laws.stop_environment_quiet c (host.stop s.container_id w).0,
  )

  first_stopped :
      (s : Sandbox) (ss : List Sandbox) (w : W)
      → (stop_once host false s w).2 ≡ none
      → stop_pending host (s ∷ ss) w ≡ stop_pending host ss (stop_once host false s w).1
  unfolding stop_pending
  first_stopped s ss w gone = ground (arith, gone)

  first_kept :
      (s : Sandbox) (ss : List Sandbox) (w : W) (e : GoError)
      → (stop_once host false s w).2 ≡ some e
      → let rest = stop_pending host ss (stop_once host false s w).1 in
        stop_pending host (s ∷ ss) w ≡ ((stop_once host false s w).0 ∷ rest.0, rest.1, e ∷ rest.2)
  unfolding stop_pending
  first_kept s ss w e there = ground (arith, there)

  stop_pending-absent :
      (ss : List Sandbox) (w : W)
      → container c w ≡ false
      → container c (stop_pending host ss w).1 ≡ false
  stop_pending-absent [] w absent = unfold stop_pending in absent
  stop_pending-absent (s ∷ ss) w absent =
      let rest =
        stop_pending-absent ss (stop_once host false s w).1 (stop_once-absent s w absent) in
      elim (Option-cases (stop_once host false s w).2) [
        | inl gone ↦ ap (λ r. container c r.1) (first_stopped s ss w gone) ∙ rest
        | inr (e, there) ↦ ap (λ r. container c r.1) (first_kept s ss w e there) ∙ rest
      ]

  -- A Close that has closed the deployment, or that has left sandboxes pending.
  abbrev pub IsClosed : Manager → W → Manager × W × Option GoError → Type 0
  IsClosed m w (m', w', failure) =
      IsPending m'.pending w'
      × (((m'.pending ≡ []) × ClosesOnce host m (stop_pending host m.pending w).1 (m', w', failure))
          ⊎ ((m'.pending ≢ [])
              × (m'.closed ≡ m.closed)
              × (w' ≡ (stop_pending host m.pending w).1)
              × (failure ≢ none)))
