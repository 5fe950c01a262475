-- ===== src/Service/Down.antt =====
-- pkg/bridge/service.go: a Stop without an error, and a Stop of a closed service.
use aries.Base.{false, ◌&&◌, not, List, [], ◌∷◌, none, All, ◌≡◌, ◌≢◌, ◌⊎◌}
use aries.Core.Errors.{join, non_nil}
use aries.Session.Stop.{Host, Session, stop}
use aries.Session.Closed.{Confirmed}
use aries.Service.State.{closing, closed, is_blank, Service}
use aries.Service.Start.{Runtime, ServiceOutcome}
use aries.Service.Stop.{failure_history, stop_sessions}
use aries.Service.Closed.{Settled, Released}

-- A service with all that this Stop confirmed.
abbrev pub IsDown : Service → Type 0
IsDown s =
    (s.phase ≡ closed)
    × Released s
    × All Settled s.sessions
    × (s.allocation_err ≡ none)
    × (s.shutdown_err ≡ none)

module _ {W : Type 0} (runtime : Runtime W) (sessions : Session → Host W) where
  -- Each session's Stop confirmed its release, if it was not confirmed before.
  abbrev pub AllConfirmed : List Session → W → Type 0
  AllConfirmed [] w = Unit
  AllConfirmed (s ∷ ss) w =
      (((s.registered && not s.is_released) ≡ false) ⊎ Confirmed (sessions s) s w)
      × AllConfirmed ss (stop (sessions s) s w).1

  -- The runtime was removed before, there is none, or the deployment confirmed a stop of it, after
  -- the sessions of the service were stopped.
  abbrev pub RuntimeGone : Service → W → Type 0
  RuntimeGone s w =
      ((not (is_blank s.runtime_id) && not s.removed) ≡ false)
      ⊎ ((runtime.stop s.runtime_id (stop_sessions runtime sessions s.sessions w).1).1 ≡ none)

  -- What is left of the service and of its sessions.
  unfoldable pub DownOrFailed : Service → W → ServiceOutcome W → Type 0
  DownOrFailed s w0 (s', w, failure) =
      (s'.allocation_err ≡ s.allocation_err)
      × ((IsDown s' × AllConfirmed s.sessions w0 × RuntimeGone s w0 × (failure ≡ none))
          ⊎ (((s'.phase ≡ closed)
                × Released s'
                × RuntimeGone s w0
                × (failure ≡ join (non_nil (failure_history s')))
                × (failure ≢ none))
              ⊎ ((s'.phase ≡ closing) × (failure ≢ none))))
