-- ===== src/Runner/Ledger/Stages.antt =====
-- pkg/runner/runner.go: the stages of `runTask` keep the flags in agreement with the history.
use aries.Base.{ℕ, ◌≡◌, refl, false, Option, none, some, arith}
use aries.Core.Errors.{GoError}
use aries.Core.Types.{Task, Evaluation, HarnessResult, ToolEndpoint}
use aries.Runner.Roles.{Evaluating, finished, starts}
use aries.Runner.Options.{Runner}
use aries.Runner.TaskRun.{
  TaskRun, start_sandbox_call, prepare_sandbox_call, start_bridge_call, stop_bridge_call,
  start_harness_call, run_harness_call, stop_harness_call,
}
use aries.Runner.Finish.{start_evaluation_sandbox}
use aries.Runner.Stages.{
  run_evaluation, record_evaluation, evaluate_stage, block_evaluation, isolate_stage, record_run,
  run_agent, harness_stage, bridge_stage, prepare_stage, sandbox_stage, begin,
}
use aries.Runner.Ledger.{Tracks, start_evaluation_sandbox-Tracks}

module _ {W S : Type 0} (weight : S → ℕ) where
  set_world-Tracks :
      (w : W) (t : TaskRun W S) → Tracks weight t → Tracks weight (record t { world = w })
  set_world-Tracks w t h = ground arith

  module _ (r : Runner W S) (task : Task) where
    run_evaluation-Tracks :
        (p : Evaluating W S) (t : TaskRun W S)
        → Tracks weight t
        → Tracks weight (run_evaluation r task p t).0
    unfolding run_evaluation
    run_evaluation-Tracks (finished w evaluation err) t h = set_world-Tracks w t h
    run_evaluation-Tracks (starts ctx environment w resume) t h =
        let started = start_evaluation_sandbox r ctx task.id environment (record t { world = w }) in
        run_evaluation-Tracks (resume started.0.world started.1 started.2) started.0 (
          start_evaluation_sandbox-Tracks weight r ctx task.id environment (record t { world = w })
            (set_world-Tracks w t h))

    record_evaluation-Tracks :
        (e : Evaluation) (err : Option GoError) (t : TaskRun W S)
        → Tracks weight t
        → Tracks weight (record_evaluation r task e err t)
    unfolding record_evaluation
    record_evaluation-Tracks e none t h = ground arith
    record_evaluation-Tracks e (some err) t h = ground arith

    evaluate_stage-Tracks :
        (t : TaskRun W S) → Tracks weight t → Tracks weight (evaluate_stage r task t)
    unfolding evaluate_stage
    evaluate_stage-Tracks t h =
        record_evaluation-Tracks _ _ _ (run_evaluation-Tracks _ _ (ground arith))

    isolate_stage-Tracks :
        (t : TaskRun W S) → Tracks weight t → Tracks weight (isolate_stage r task t)
    unfolding isolate_stage stop_harness_call stop_bridge_call block_evaluation
    isolate_stage-Tracks t h = grind (arith, evaluate_stage-Tracks)

    record_run-Tracks :
        (h : HarnessResult) (err : Option GoError) (t : TaskRun W S)
        → Tracks weight t
        → Tracks weight (record_run r task h err t)
    unfolding record_run
    record_run-Tracks h none t k = ground arith
    record_run-Tracks h (some err) t k = ground arith

    harness_stage-Tracks :
        (e : ToolEndpoint) (t : TaskRun W S)
        → Tracks weight t
        → Tracks weight (harness_stage r task e t)
    unfolding harness_stage run_agent start_harness_call run_harness_call
    harness_stage-Tracks e t h = isolate_stage-Tracks _ (grind (arith, record_run-Tracks))

    bridge_stage-Tracks :
        (t : TaskRun W S) → Tracks weight t → Tracks weight (bridge_stage r task t)
    unfolding bridge_stage start_bridge_call
    bridge_stage-Tracks t h = grind (arith, harness_stage-Tracks)

    prepare_stage-Tracks :
        (t : TaskRun W S) → Tracks weight t → Tracks weight (prepare_stage r task t)
    unfolding prepare_stage prepare_sandbox_call
    prepare_stage-Tracks t h = grind (arith, bridge_stage-Tracks)

    pub sandbox_stage-Tracks :
        (t : TaskRun W S)
        → Tracks weight t
        → t.sandbox_active ≡ false
        → Tracks weight (sandbox_stage r task t)
    unfolding sandbox_stage start_sandbox_call
    sandbox_stage-Tracks t h idle = grind (arith, prepare_stage-Tracks)

    begin-Tracks : (w : W) → Tracks weight (begin r task w)
    unfolding begin
    begin-Tracks w = ground arith

    -- The flags agree with the history where `finish` takes over.
    pub before_finish-Tracks : (w : W) → Tracks weight (sandbox_stage r task (begin r task w))
    before_finish-Tracks w =
        sandbox_stage-Tracks (begin r task w) (begin-Tracks w) (unfold begin in refl)
