-- ===== src/Runner/Identity.antt =====
-- pkg/runner/runner.go: the result of a task carries the task's identity.
use aries.Base.{ℕ, String, ◌≡◌, refl, ap, ◌∙◌, arith}
use aries.Core.Types.{Task, ToolEndpoint}
use aries.Runner.Roles.{detached, Evaluating, finished, starts}
use aries.Runner.Options.{Runner}
use aries.Runner.TaskRun.{
  TaskRun, start_sandbox_call, prepare_sandbox_call, start_bridge_call, stop_bridge_call,
  start_harness_call, run_harness_call, stop_harness_call,
}
use aries.Runner.Finish.{
  settle_cleanup, start_evaluation_sandbox, report_context, close_result, finish,
}
use aries.Runner.Outcome.{cleanup_all-Same}
use aries.Runner.Stages.{
  new_task_result, run_evaluation, record_evaluation, evaluate_stage, block_evaluation,
  isolate_stage, record_run, run_agent, harness_stage, bridge_stage, prepare_stage, sandbox_stage,
  begin, run_task,
}

module _ {W S : Type 0} where
  abbrev HasId : String → TaskRun W S → Type 0
  HasId id t = t.result.task_id ≡ id

  module _ (r : Runner W S) (task : Task) where
    run_evaluation-HasId :
        (p : Evaluating W S) (t : TaskRun W S)
        → HasId task.id t
        → HasId task.id (run_evaluation r task p t).0
    unfolding run_evaluation start_evaluation_sandbox start_sandbox_call
    run_evaluation-HasId (finished w evaluation err) t h = h
    run_evaluation-HasId (starts ctx environment w resume) t h =
        let started = start_evaluation_sandbox r ctx task.id environment (record t { world = w }) in
        run_evaluation-HasId (resume started.0.world started.1 started.2) started.0 (ground arith)

    evaluate_stage-HasId :
        (t : TaskRun W S) → HasId task.id t → HasId task.id (evaluate_stage r task t)
    unfolding evaluate_stage record_evaluation
    evaluate_stage-HasId t h = grind (arith, run_evaluation-HasId)

    isolate_stage-HasId :
        (t : TaskRun W S) → HasId task.id t → HasId task.id (isolate_stage r task t)
    unfolding isolate_stage stop_harness_call stop_bridge_call block_evaluation
    isolate_stage-HasId t h = grind (arith, evaluate_stage-HasId)

    run_agent-HasId :
        (e : ToolEndpoint) (t : TaskRun W S)
        → HasId task.id t
        → HasId task.id (run_agent r task e t)
    unfolding run_agent start_harness_call run_harness_call record_run
    run_agent-HasId e t h = ground arith

    bridge_stage-HasId : (t : TaskRun W S) → HasId task.id t → HasId task.id (bridge_stage r task t)
    unfolding bridge_stage harness_stage start_bridge_call
    bridge_stage-HasId t h = grind (arith, isolate_stage-HasId, run_agent-HasId)

    sandbox_stage-HasId :
        (t : TaskRun W S) → HasId task.id t → HasId task.id (sandbox_stage r task t)
    unfolding sandbox_stage prepare_stage prepare_sandbox_call start_sandbox_call
    sandbox_stage-HasId t h = grind (arith, bridge_stage-HasId)

  finish_tail-HasId :
      (r : Runner W S) (started_at : ℕ) (id : String) (t : TaskRun W S)
      → HasId id t
      → HasId id (close_result r started_at (report_context r (settle_cleanup t)))
  unfolding close_result report_context settle_cleanup
  finish_tail-HasId r started_at id t h = ground arith

  pub run_task-task_id :
      (r : Runner W S) (task : Task) (w : W) → (run_task r task w).0.result.task_id ≡ task.id
  unfolding run_task finish begin new_task_result
  run_task-task_id r task w =
      let t = begin r task w in
      let ctx = detached r.cleanup_timeout in
      finish_tail-HasId r (r.host.now w) task.id _ (
        ap (λ x. x.task_id) (cleanup_all-Same r ctx (sandbox_stage r task t)).0
        ∙ sandbox_stage-HasId r task t refl)
