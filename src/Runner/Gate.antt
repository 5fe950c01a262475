-- ===== src/Runner/Gate.antt =====
-- pkg/runner/runner.go, `runTask`: evaluation stands behind the two isolation gates.
use aries.Base.{◌≡◌, refl, sym, subst, List, [], ◌∷◌, Option, none, some, arith}
use aries.Core.Errors.{GoError}
use aries.Core.Types.{Duration, Task, Evaluation, HarnessResult, ToolEndpoint}
use aries.Runner.Roles.{Context, run_context, detached, Evaluating, finished, starts}
use aries.Runner.Options.{Runner}
use aries.Runner.TaskRun.{
  Call, evaluate, stop_harness, stop_bridge, TaskRun, start_sandbox_call, stop_sandbox_call,
  prepare_sandbox_call, start_bridge_call, stop_bridge_call, start_harness_call, run_harness_call,
  stop_harness_call,
}
use aries.Runner.Finish.{
  start_evaluation_sandbox, stop_each, stop_evaluation, cleanup_evaluation, cleanup_harness,
  cleanup_bridge, cleanup_sandbox, cleanup_all,
}
use aries.Runner.Cleanup.{finish_tail}
use aries.Runner.Stages.{
  run_evaluation, record_evaluation, evaluate_stage, block_evaluation, isolate_stage, record_run,
  run_agent, harness_stage, bridge_stage, prepare_stage, sandbox_stage, begin, run_task,
}

-- Each `Evaluate` in the history is of this task, under the run's context, and directly follows a
-- confirmed stop of the harness and a confirmed stop of the bridge, both under the isolation
-- context of duration `limit`.
abbrev pub Gated : {S : Type 0} → Duration → Task → List (Call S) → Type 0
Gated limit task [] = Unit
Gated {S} limit task (evaluate ctx task' sandbox ∷ h) =
    (ctx ≡ run_context)
    × (task' ≡ task)
    × ((earlier : List (Call S)) × (h
          ≡ stop_bridge (detached limit) none ∷ stop_harness (detached limit) none ∷ earlier))
    × Gated limit task h
Gated limit task (c ∷ h) = Gated limit task h

module _ {W S : Type 0} (r : Runner W S) (task : Task) where
  abbrev IsGated : TaskRun W S → Type 0
  IsGated t = Gated r.cleanup_timeout task t.history

  run_evaluation-IsGated :
      (p : Evaluating W S) (t : TaskRun W S) → IsGated t → IsGated (run_evaluation r task p t).0
  unfolding run_evaluation start_evaluation_sandbox start_sandbox_call
  run_evaluation-IsGated (finished w evaluation err) t h = h
  run_evaluation-IsGated (starts ctx environment w resume) t h =
      let started = start_evaluation_sandbox r ctx task.id environment (record t { world = w }) in
      run_evaluation-IsGated (resume started.0.world started.1 started.2) started.0 (ground arith)

  record_evaluation-history :
      (e : Evaluation) (err : Option GoError) (t : TaskRun W S)
      → (record_evaluation r task e err t).history ≡ t.history
  unfolding record_evaluation
  record_evaluation-history e none t = refl
  record_evaluation-history e (some err) t = refl

  record_evaluation-IsGated :
      (e : Evaluation) (err : Option GoError) (t : TaskRun W S)
      → IsGated t
      → IsGated (record_evaluation r task e err t)
  unfolding record_evaluation
  record_evaluation-IsGated e none t h = h
  record_evaluation-IsGated e (some err) t h = h

  evaluate_stage-IsGated :
      (t : TaskRun W S) (earlier : List (Call S))
      → IsGated t
      → t.history
        ≡ stop_bridge (detached r.cleanup_timeout) none
          ∷ stop_harness (detached r.cleanup_timeout) none
          ∷ earlier
      → IsGated (evaluate_stage r task t)
  unfolding evaluate_stage
  evaluate_stage-IsGated t earlier h gates =
      record_evaluation-IsGated _ _ _ (run_evaluation-IsGated _ _ (refl, refl, (earlier, gates), h))

  isolate_stage-IsGated : (t : TaskRun W S) → IsGated t → IsGated (isolate_stage r task t)
  unfolding isolate_stage stop_harness_call stop_bridge_call block_evaluation
  isolate_stage-IsGated t h = grind (arith, evaluate_stage-IsGated)

  record_run-IsGated :
      (outcome : HarnessResult) (err : Option GoError) (t : TaskRun W S)
      → IsGated t
      → IsGated (record_run r task outcome err t)
  unfolding record_run
  record_run-IsGated outcome none t h = h
  record_run-IsGated outcome (some err) t h = h

  harness_stage-IsGated :
      (e : ToolEndpoint) (t : TaskRun W S) → IsGated t → IsGated (harness_stage r task e t)
  unfolding harness_stage run_agent start_harness_call run_harness_call
  harness_stage-IsGated e t h = isolate_stage-IsGated _ (grind (arith, record_run-IsGated))

  bridge_stage-IsGated : (t : TaskRun W S) → IsGated t → IsGated (bridge_stage r task t)
  unfolding bridge_stage start_bridge_call
  bridge_stage-IsGated t h = grind (arith, harness_stage-IsGated)

  prepare_stage-IsGated : (t : TaskRun W S) → IsGated t → IsGated (prepare_stage r task t)
  unfolding prepare_stage prepare_sandbox_call
  prepare_stage-IsGated t h = grind (arith, bridge_stage-IsGated)

  sandbox_stage-IsGated : (t : TaskRun W S) → IsGated t → IsGated (sandbox_stage r task t)
  unfolding sandbox_stage start_sandbox_call
  sandbox_stage-IsGated t h = grind (arith, prepare_stage-IsGated)

  stop_each-IsGated :
      (ctx : Context) (ss : List S) (t : TaskRun W S) → IsGated t → IsGated (stop_each r ctx ss t).0
  unfolding stop_each stop_sandbox_call
  stop_each-IsGated ctx [] t h = h
  stop_each-IsGated ctx (s ∷ ss) t h =
      let rest = stop_each-IsGated ctx ss (stop_sandbox_call r ctx (some s) t).0 h in
      ground (arith, rest)

  cleanup_evaluation-IsGated :
      (ctx : Context) (t : TaskRun W S) → IsGated t → IsGated (cleanup_evaluation r ctx t)
  unfolding cleanup_evaluation stop_evaluation
  cleanup_evaluation-IsGated ctx t h = grind (arith, stop_each-IsGated)

  cleanup_harness-IsGated :
      (ctx : Context) (t : TaskRun W S) → IsGated t → IsGated (cleanup_harness r ctx t)
  unfolding cleanup_harness stop_harness_call
  cleanup_harness-IsGated ctx t h = ground arith

  cleanup_bridge-IsGated :
      (ctx : Context) (t : TaskRun W S) → IsGated t → IsGated (cleanup_bridge r ctx t)
  unfolding cleanup_bridge stop_bridge_call
  cleanup_bridge-IsGated ctx t h = ground arith

  cleanup_sandbox-IsGated :
      (ctx : Context) (t : TaskRun W S) → IsGated t → IsGated (cleanup_sandbox r ctx t)
  unfolding cleanup_sandbox stop_sandbox_call
  cleanup_sandbox-IsGated ctx t h = ground arith

  cleanup_all-IsGated :
      (ctx : Context) (t : TaskRun W S) → IsGated t → IsGated (cleanup_all r ctx t)
  unfolding cleanup_all
  cleanup_all-IsGated ctx t h = cleanup_sandbox-IsGated ctx _ (
      cleanup_bridge-IsGated ctx _
        (cleanup_harness-IsGated ctx _ (cleanup_evaluation-IsGated ctx t h)))

  -- Whatever the roles do, each call of `Evaluate` that a task makes is on the task as the benchmark
  -- gave it, under the run's context, and directly follows a confirmed stop of the harness and then
  -- a confirmed stop of the bridge, both made under a context that the run's cancellation does not
  -- reach, with the cleanup timeout.
  pub run_task-Gated : (w : W) → Gated r.cleanup_timeout task (run_task r task w).0.history
  unfolding run_task begin
  run_task-Gated w =
      let t = sandbox_stage r task (begin r task w) in
      let gated = cleanup_all-IsGated (detached r.cleanup_timeout) t (sandbox_stage-IsGated _ tt) in
      subst (Gated r.cleanup_timeout task) (sym (finish_tail r (r.host.now w) t).0) gated
