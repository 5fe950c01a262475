-- ===== src/Sandbox/Stop.antt =====
-- pkg/sandbox/sandbox.go: `stop`, `stopOnce`, `collectLogs`, `rollbackStart`, and the manager's
-- `Stop` and `Close`.
use aries.Base.{
  Bool, true, false, ◌&&◌, not, List, [], ◌∷◌, ◌++◌, Option, none, some, ◌==◌, if◌then◌else◌, codes,
}
use aries.Core.Errors.{
  GoError, message, wrapped, joined, nil, cons, not_found, errors_is, join, non_nil,
}
use aries.Sandbox.State.{Host, Sandbox, Manager, is_free}

-- The end of `collectLogs`: a runtime without logs is no failure.
abbrev pub forgive_missing : Option GoError → Option GoError
forgive_missing failure = if errors_is failure not_found then none else failure

-- What a call of `stop` comes to: an answer, or that it waits for the stop that runs.
pub data Answer : Type 0 where
  answered : Option GoError → Answer
  waits : Answer

-- The two critical sections of `stop`. The first says whether this call does the work.
unfoldable pub begin_stop : Sandbox → Sandbox × Option Answer
begin_stop s =
    if s.stopped
    then (s, some (answered none))
    else if s.stopping
    then (s, some waits)
    else (record s { stopping = true }, none)

unfoldable pub finish_stopping : Option GoError → Sandbox → Sandbox
finish_stopping e s = record s { stop_err = e; stopping = false; stopped = is_free s }

abbrev pub keep_pending : Sandbox → Manager → Manager
keep_pending s m = record m { pending = s ∷ m.pending }

module _ {W : Type 0} (host : Host W) where
  unfoldable pub collect_logs : Sandbox → W → W × Option GoError
  collect_logs s w =
      let (w1, no_stdout) = host.open_log s.artifact_dir (codes "container.stdout.log") w in
      let (w2, no_stderr) = host.open_log s.artifact_dir (codes "container.stderr.log") w1 in
      let (w3, failure) = host.logs_stream s.container_id w2 in
      elim no_stdout [
        | some e ↦ (w1, some (wrapped "create sandbox task stdout log" e))
        | none ↦ elim no_stderr [
          | some e ↦ (w2, some (wrapped "create sandbox task stderr log" e))
          | none ↦ (w3, forgive_missing failure)
        ]
      ]

  abbrev pub logs_if : Bool → Sandbox → W → W × Option GoError
  logs_if collect s w = if collect then collect_logs s w else (w, none)

  -- The two removals of `stopOnce`, each with its errors.
  unfoldable pub stop_container : Bool → Sandbox → W → Sandbox × W × List (Option GoError)
  stop_container collect s w =
      let (w1, log_failure) = logs_if collect s w in
      let (w2, failure) = host.stop s.container_id w1 in
      if s.container_owned
      then elim failure [
        | none ↦ (record s { container_owned = false }, w2, log_failure ∷ [])
        | some e ↦ (s, w2, log_failure ∷ some (wrapped "stop task container" e) ∷ [])
      ]
      else (s, w, [])

  unfoldable pub stop_network : Sandbox → W → Sandbox × W × List (Option GoError)
  stop_network s w =
      let (w1, failure) = host.stop_environment w in
      if s.environment_owned && not s.container_owned
      then elim failure [
        | none ↦ (record s { environment_owned = false }, w1, [])
        | some e ↦ (s, w1, some (wrapped "stop task network" e) ∷ [])
      ]
      else (s, w, [])

  unfoldable pub stop_once : Bool → Sandbox → W → Sandbox × W × Option GoError
  stop_once collect s w =
      let (s1, w1, errs) = stop_container collect s w in
      let (s2, w2, more) = stop_network s1 w1 in (s2, w2, join (non_nil (errs ++ more)))

  unfoldable pub sandbox_stop : Sandbox → W → Sandbox × W × Answer
  sandbox_stop s w =
      let (begun, early) = begin_stop s in
      let (s1, w1, failure) = stop_once true begun w in
      elim early [
        | some answer ↦ (begun, w, answer)
        | none ↦ (finish_stopping failure s1, w1, answered failure)
      ]

  -- `Manager.Stop`, given a sandbox of this package.
  unfoldable pub manager_stop : Manager → Sandbox → W → Sandbox × W × Answer
  manager_stop m s w =
      let stopping = sandbox_stop s w in
      if s.owner == m.id then stopping else (
        s,
        w,
        answered (some (message "stop deployment sandbox: sandbox belongs to another manager")),
      )

  unfoldable pub rollback_start : GoError → Sandbox → Manager → W → Manager × W × GoError
  rollback_start primary s m w =
      let (s1, w1, failure) = stop_once false s w in
      elim failure [
        | none ↦ (m, w1, primary)
        | some e ↦ (
          keep_pending s1 m,
          w1,
          joined (cons primary (cons (wrapped "rollback partial sandbox" e) nil)),
        )
      ]

  -- The loop of `Close`: the sandboxes that are kept, and the errors.
  unfoldable pub stop_pending : List Sandbox → W → List Sandbox × W × List GoError
  stop_pending [] w = ([], w, [])
  stop_pending (s ∷ ss) w =
      let (s1, w1, failure) = stop_once false s w in
      let (kept, w2, errs) = stop_pending ss w1 in
      elim failure [ none ↦ (kept, w2, errs) | some e ↦ (s1 ∷ kept, w2, e ∷ errs) ]

  -- `closeOnce.Do` and the return of what it left.
  unfoldable pub close_deployment : Manager → W → Manager × W × Option GoError
  close_deployment m w =
      let (w1, failure) = host.close w in
      elim m.closed [
        | none ↦ (record m { closed = some failure }, w1, failure)
        | some result ↦ (m, w, result)
      ]

  unfoldable pub manager_close : Manager → W → Manager × W × Option GoError
  manager_close m w =
      let (kept, w1, errs) = stop_pending m.pending w in
      let left = record m { pending = kept } in
      let closing = close_deployment left w1 in
      elim (join errs) [ some e ↦ (left, w1, some e) | none ↦ closing ]
