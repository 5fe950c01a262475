-- ===== src/Runner/Examples.antt =====
-- The theorems on the runner at concrete runs of the sample roles.
use aries.Base.{
  suc, ℕ, true, ◌∷◌, ◌+◌, ◌≤◌, ◌≡◌, ◌≢◌, ◌⊎◌, refl, false, List, ◌++◌, [], none, some, length,
}
use aries.Core.Errors.{Sentinel, message, errors_is}
use aries.Core.Types.{ToolEndpoint, failed, succeeded, canceled}
use aries.Runner.Roles.{run_context}
use aries.Runner.Stages.{new_task_result, run_task}
use aries.Runner.Ledger.{opened, closed, harness_live, bridge_live}
use aries.Runner.Cleanup.{run_task-clean}
use aries.Runner.Gate.{Gated, run_task-Gated}
use aries.Runner.Success.{Extends}
use aries.Runner.Success.Agent.{full_calls}
use aries.Runner.Success.Whole.{run_task-full}
use aries.Runner.Outcome.{Isolated, run_task-Isolated}
use aries.Runner.Reports.{run_task-reports}
use aries.Core.Types.{Task, TaskResult}
use aries.Runner.Summary.{
  summarize, summarize_counts, count_by, harness_ok, harness_bad, evaluation_ok, evaluation_bad,
  evaluation_blocked, cleanup_bad,
}
use aries.Runner.Loop.{run}
use aries.Runner.Loop.Order.{Clean, task_ids, result_ids, run_order, run_complete}
use aries.Runner.Samples.{
  Script, smooth, runner, task, harness_result, evaluation, smooth_clean, smooth_silent,
  smooth_run_silent,
}

abbrev busy : Script
busy = record smooth { harness_stop_err = some (message "busy") }

run_task-clean_example :
    let t = (run_task (runner smooth) (task "a") 0).0 in
    (opened (λ s. suc s) t.history ≡ closed (λ s. suc s) t.history)
    × (harness_live t.history ≡ false)
    × (bridge_live t.history ≡ false)
run_task-clean_example =
    run_task-clean (runner smooth) (λ s. suc s) (task "a") 0 (rw smooth_clean (λ e. cc))

run_task-Gated_example :
    Gated
      (runner smooth).cleanup_timeout
      (task "a")
      (run_task (runner smooth) (task "a") 0).0.history
run_task-Gated_example = run_task-Gated (runner smooth) (task "a") 0

run_task-full_example :
    let r = runner smooth in
    let t = (run_task r (task "a") 0).0 in
    ((s : ℕ) × (e : ToolEndpoint) × Extends t.history (full_calls r (task "a") s e))
    × (t.result.cleanup.status ≢ failed)
    × (r.host.ctx_err t.world ≡ none)
run_task-full_example = run_task-full (runner smooth) (task "a") 0 smooth_silent

run_task-Isolated_example : Isolated (run_task (runner busy) (task "a") 0).0
run_task-Isolated_example = run_task-Isolated (runner busy) (task "a") 0

run_task-reports_example :
    let (t, err) = run_task (runner busy) (task "a") 0 in
    (t.result.error ≡ err)
    × (t.result.cleanup.status ≡ failed → err ≢ none)
    × ((c : Sentinel) → (runner busy).host.ctx_err t.world ≡ some c → errors_is err c ≡ true)
run_task-reports_example = run_task-reports (runner busy) (task "a") 0

run_order_example :
    let r = runner smooth in
    let tasks = (r.benchmark.tasks run_context 0).1 in
    let (w', result, err) = run r 0 in
    (left : List Task) × (task_ids tasks ≡ result_ids result.tasks ++ task_ids left)
    × ((left ≡ []) ⊎ ((c : Sentinel) × (r.host.ctx_err w' ≡ some c) × (errors_is err c ≡ true)))
run_order_example = run_order (runner smooth) 0 refl

run_complete_example :
    let r = runner smooth in
    let tasks = (r.benchmark.tasks run_context 0).1 in
    let (_, result, _) = run r 0 in
    ((r.benchmark.tasks run_context 0).2 ≡ none)
    × (task_ids tasks ≡ result_ids result.tasks)
    × Clean result.tasks
    × (result.summary.tasks ≡ length tasks)
run_complete_example = run_complete (runner smooth) 0 smooth_run_silent

abbrev two_results : List TaskResult
two_results =
    record (new_task_result "a") { harness = record harness_result { status = succeeded } }
    ∷ record (new_task_result "b") { evaluation = record evaluation { status = canceled } }
    ∷ []

summarize_counts_example :
    let s = summarize two_results in
    (s.tasks ≡ length two_results)
    × (s.harness_succeeded ≡ count_by harness_ok two_results)
    × (s.harness_failed ≡ count_by harness_bad two_results)
    × (s.evaluations_succeeded ≡ count_by evaluation_ok two_results)
    × (s.evaluations_failed ≡ count_by evaluation_bad two_results)
    × (s.evaluations_blocked ≡ count_by evaluation_blocked two_results)
    × (s.cleanup_failed ≡ count_by cleanup_bad two_results)
    × (s.evaluations_run ≡ s.evaluations_succeeded + s.evaluations_failed)
    × (s.evaluations_run + s.evaluations_blocked ≤ s.tasks)
    × (s.harness_succeeded + s.harness_failed ≤ s.tasks)
summarize_counts_example = summarize_counts two_results
