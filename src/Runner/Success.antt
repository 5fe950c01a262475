-- ===== src/Runner/Success.antt =====
-- pkg/runner/runner.go, `runTask`: what a task that returns no error has done.
pub mod Agent
pub mod Whole
use aries.Base.{
  ℕ, String, ◌≡◌, refl, sym, ap, ◌∙◌, ◌≢◌, ◌⊎◌, inl, inr, true, false, List, [], ◌∷◌, ◌++◌,
  append_assoc, reverse, Option, none, some, arith, append-ne-nil, snoc-ne-nil, Option-cases,
}
use aries.Core.Errors.{GoError, join, join-eq-none, wrapped}
use aries.Core.Types.{
  Duration, Environment, Task, Evaluation, HarnessResult, ToolEndpoint, blocked_isolation,
  confirmed, SandboxRequest, HarnessRequest, Purpose,
}
use aries.Runner.Roles.{Context, run_context, detached, Evaluating, finished, starts}
use aries.Runner.Options.{Runner, effective_runtime}
use aries.Runner.TaskRun.{
  Call, evaluate, stop_harness, stop_bridge, start_sandbox, prepare_sandbox, start_bridge,
  start_harness, run_harness, TaskRun, start_sandbox_call, stop_sandbox_call, prepare_sandbox_call,
  start_bridge_call, stop_bridge_call, start_harness_call, run_harness_call, stop_harness_call,
}
use aries.Runner.Finish.{
  settle_cleanup, start_evaluation_sandbox, stop_each, stop_evaluation, cleanup_evaluation,
  cleanup_harness, cleanup_bridge, cleanup_sandbox, cleanup_all, report_context, close_result,
  finish,
}
use aries.Runner.Stages.{
  run_evaluation, record_evaluation, evaluate_stage, block_evaluation, isolate_stage, record_run,
  run_agent, harness_stage, bridge_stage, prepare_stage, sandbox_stage, begin, run_task,
  harness_request, sandbox_request, confirm_stopped, confirm_revoked,
}

-- `h` is a later history than `earlier`.
abbrev pub Extends : {S : Type 0} → List (Call S) → List (Call S) → Type 0
Extends {S} h earlier = (later : List (Call S)) × (h ≡ later ++ earlier)

pub Extends-trans :
    {S : Type 0} (h₁ h₂ h₃ : List (Call S)) → Extends h₂ h₁ → Extends h₃ h₂ → Extends h₃ h₁
Extends-trans h₁ h₂ h₃ (a, e) (b, f) = (b ++ a, f ∙ ap (λ h. b ++ h) e ∙ sym (append_assoc b a h₁))

module _ {W S : Type 0} (r : Runner W S) (task : Task) where
  start_evaluation_sandbox_frame :
      (ctx : Context) (e : Environment) (t : TaskRun W S)
      → let (t', sandbox, err) = start_evaluation_sandbox r ctx task.id e t in
        Extends t'.history t.history × (t'.all_errors ≡ t.all_errors)
  unfolding start_evaluation_sandbox start_sandbox_call
  start_evaluation_sandbox_frame ctx e t =
      let request : SandboxRequest = record {
        run_id = r.run_id;
        task_id = task.id;
        purpose = Purpose.evaluation;
        environment = e;
      } in
      let (_, sandbox, err) = r.tool_sandbox.start ctx request t.world in
      ((start_sandbox ctx request sandbox err ∷ [], ground arith), ground arith)

  run_evaluation_frame :
      (p : Evaluating W S) (t : TaskRun W S)
      → Extends (run_evaluation r task p t).0.history t.history
        × ((run_evaluation r task p t).0.all_errors ≡ t.all_errors)
  unfolding run_evaluation
  run_evaluation_frame (finished w evaluation err) t = (([], refl), refl)
  run_evaluation_frame (starts ctx environment w resume) t =
      let started = start_evaluation_sandbox r ctx task.id environment (record t { world = w }) in
      let (grown, same) = start_evaluation_sandbox_frame ctx environment (record t { world = w }) in
      let (later, kept) =
        run_evaluation_frame (resume started.0.world started.1 started.2) started.0 in
      (Extends-trans t.history started.0.history _ grown later, kept ∙ same)

  record_evaluation_frame :
      (e : Evaluation) (err : Option GoError) (t : TaskRun W S)
      → (record_evaluation r task e err t).all_errors ≡ []
      → ((record_evaluation r task e err t).history ≡ t.history)
        × (t.all_errors ≡ [])
        × (err ≡ none)
  unfolding record_evaluation
  record_evaluation_frame e none t h = (refl, h, refl)
  record_evaluation_frame e (some err) t h = absurd (snoc-ne-nil _ _ h)

  evaluate_stage_done :
      (t : TaskRun W S)
      → (evaluate_stage r task t).all_errors ≡ []
      → Extends (evaluate_stage r task t).history (evaluate run_context task t.sandbox ∷ t.history)
        × (t.all_errors ≡ [])
  unfolding evaluate_stage
  evaluate_stage_done t h =
      let (same, clean, _) = record_evaluation_frame _ _ _ h in
      let (grown, kept) = run_evaluation_frame _ _ in ((grown.0, same ∙ grown.1), sym kept ∙ clean)

  -- The isolation gates, by what the two stops return.
  passed : TaskRun W S → TaskRun W S
  passed t =
      let ctx = detached r.cleanup_timeout in
      confirm_revoked none
        (stop_bridge_call r ctx (confirm_stopped none (stop_harness_call r ctx t).0)).0

  isolate_stage_cases :
      (t : TaskRun W S)
      → let d = detached r.cleanup_timeout in
        ((isolate_stage r task t ≡ evaluate_stage r task (passed t))
          × ((passed t).history ≡ stop_bridge d none ∷ stop_harness d none ∷ t.history)
          × ((passed t).all_errors ≡ t.all_errors)
          × ((passed t).sandbox ≡ t.sandbox))
        ⊎ ((isolate_stage r task t).all_errors ≢ [])
  unfolding isolate_stage passed stop_harness_call stop_bridge_call block_evaluation
  isolate_stage_cases t = grind (arith, append-ne-nil)

  -- The calls that come before evaluation, the newest first.
  abbrev pub isolated_calls : TaskRun W S → List (Call S)
  isolated_calls t =
      let d = detached r.cleanup_timeout in
      evaluate run_context task t.sandbox ∷ stop_bridge d none ∷ stop_harness d none ∷ t.history

  pub isolate_stage_done :
      (t : TaskRun W S)
      → (isolate_stage r task t).all_errors ≡ []
      → Extends (isolate_stage r task t).history (isolated_calls t) × (t.all_errors ≡ [])
  isolate_stage_done t h = elim (isolate_stage_cases t) [
    | inl (same, history, errors, sandbox) ↦
        let (grown, clean) =
          evaluate_stage_done (passed t) (ap (λ u. u.all_errors) (sym same) ∙ h) in
        ((grown.0, ground (arith, grown.1, same, history, sandbox)), sym errors ∙ clean)
    | inr failed ↦ absurd (failed h)
  ]
