-- ===== src/Service/Stop.antt =====
-- pkg/bridge/service.go: `Stop`. The goroutines that stop the sessions share nothing of the service,
-- so that one after another stands for any order; `sessions` names what each of them calls.
use aries.Base.{true, false, ◌&&◌, not, List, [], ◌∷◌, Option, none, some, if◌then◌else◌}
use aries.Core.Errors.{GoError, join, non_nil}
use aries.Session.Stop.{Host, Session, stop}
use aries.Service.State.{closing, closed, is_closed, is_blank, Service}
use aries.Service.Start.{Runtime, ServiceOutcome}

-- `errors.Join(s.allocationErr, s.shutdownErr)`.
abbrev pub failure_history : Service → List (Option GoError)
failure_history s = s.allocation_err ∷ s.shutdown_err ∷ []

abbrev pub with_history : Service → GoError → Option GoError
with_history s e = join (non_nil (s.allocation_err ∷ s.shutdown_err ∷ some e ∷ []))

-- The failures of this Stop's sessions are kept with those of the earlier ones.
unfoldable pub after_sessions : Service → List Session → List (Option GoError) → Service
after_sessions s stopped failures = record s {
  phase = closing;
  sessions = stopped;
  shutdown_err = join (non_nil (s.shutdown_err ∷ join (non_nil failures) ∷ []));
}

module _ {W : Type 0} (runtime : Runtime W) (sessions : Session → Host W) where
  unfoldable pub stop_sessions : List Session → W → List Session × W × List (Option GoError)
  stop_sessions [] w = ([], w, [])
  stop_sessions (s ∷ ss) w =
      let (s1, w1, failure) = stop (sessions s) s w in
      let (rest, w2, failures) = stop_sessions ss w1 in (s1 ∷ rest, w2, failure ∷ failures)

  -- The last step, once the runtime is removed and the connection closed.
  unfoldable pub close_runtime : Service → W → ServiceOutcome W
  close_runtime s w =
      let (w1, failure) = runtime.close w in
      if s.runtime_closed
      then (record s { phase = closed }, w, join (non_nil (failure_history s)))
      else elim failure [
        | some e ↦ (s, w1, with_history s e)
        | none ↦ (
          record s { runtime_closed = true; phase = closed },
          w1,
          join (non_nil (failure_history s)),
        )
      ]

  unfoldable pub close_control : Service → W → ServiceOutcome W
  close_control s w =
      let (w1, failure) = runtime.close_connection w in
      let next = close_runtime (record s { connected = false }) w1 in
      let skip = close_runtime s w in
      if s.connected
      then elim failure [ some e ↦ (s, w1, with_history s e) | none ↦ next ]
      else skip

  unfoldable pub remove_runtime : Service → W → ServiceOutcome W
  remove_runtime s w =
      let (w1, failure) = runtime.stop s.runtime_id w in
      let next = close_control (record s { removed = true }) w1 in
      let skip = close_control s w in
      if not (is_blank s.runtime_id) && not s.removed
      then elim failure [ some e ↦ (s, w1, with_history s e) | none ↦ next ]
      else skip

  unfoldable pub service_stop : Service → W → ServiceOutcome W
  service_stop s w =
      let (stopped, w1, failures) = stop_sessions s.sessions w in
      let next = remove_runtime (after_sessions s stopped failures) w1 in
      if is_closed s.phase then (s, w, join (non_nil (failure_history s))) else next
