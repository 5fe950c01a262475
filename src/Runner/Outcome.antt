-- ===== src/Runner/Outcome.antt =====
-- pkg/runner/runner.go: how the isolation and evaluation records of a task agree with its calls.
use aries.Base.{ℕ, ◌≡◌, refl, ◌∙◌, ◌⊎◌, Bool, true, false, List, [], ◌∷◌, reverse, some, arith}
use aries.Core.Types.{Task, ToolEndpoint, blocked_isolation, confirmed, not_started, not_run}
use aries.Runner.Roles.{Context, detached, Evaluating, finished, starts}
use aries.Runner.Options.{Runner}
use aries.Runner.TaskRun.{
  Call, evaluate, TaskRun, start_sandbox_call, stop_sandbox_call, prepare_sandbox_call,
  start_bridge_call, stop_bridge_call, start_harness_call, run_harness_call, stop_harness_call,
}
use aries.Runner.Finish.{
  settle_cleanup, start_evaluation_sandbox, stop_each, stop_evaluation, cleanup_evaluation,
  cleanup_harness, cleanup_bridge, cleanup_sandbox, cleanup_all, report_context, close_result,
  finish,
}
use aries.Runner.Stages.{
  new_task_result, run_evaluation, record_evaluation, evaluate_stage, block_evaluation,
  isolate_stage, record_run, run_agent, harness_stage, bridge_stage, prepare_stage, sandbox_stage,
  begin, run_task,
}

abbrev pub evaluated : {S : Type 0} → List (Call S) → Bool
evaluated [] = false
evaluated (evaluate ctx task s ∷ h) = true
evaluated (c ∷ h) = evaluated h

module _ {W S : Type 0} where
  abbrev pub Unreached : TaskRun W S → Type 0
  Unreached t =
      (t.result.isolation.status ≡ not_started)
      × (t.result.isolation.harness_stopped ≡ false)
      × (t.result.isolation.bridge_revoked ≡ false)
      × (t.result.evaluation.status ≡ not_run)
      × (evaluated t.history ≡ false)

  abbrev pub Confirmed : TaskRun W S → Type 0
  Confirmed t =
      (t.result.isolation.status ≡ confirmed)
      × (t.result.isolation.harness_stopped ≡ true)
      × (t.result.isolation.bridge_revoked ≡ true)
      × (evaluated t.history ≡ true)

  abbrev pub Blocked : TaskRun W S → Type 0
  Blocked t =
      (t.result.isolation.status ≡ blocked_isolation)
      × ((t.result.isolation.harness_stopped ≡ false) ⊎ (t.result.isolation.bridge_revoked ≡ false))
      × (t.result.evaluation.status ≡ blocked_isolation)
      × (evaluated t.history ≡ false)

  abbrev pub Isolated : TaskRun W S → Type 0
  Isolated t = Confirmed t ⊎ (Blocked t ⊎ Unreached t)

  module _ (r : Runner W S) (task : Task) where
    run_evaluation-Confirmed :
        (p : Evaluating W S) (t : TaskRun W S)
        → Confirmed t
        → Confirmed (run_evaluation r task p t).0
    unfolding run_evaluation start_evaluation_sandbox start_sandbox_call
    run_evaluation-Confirmed (finished w evaluation err) t h = h
    run_evaluation-Confirmed (starts ctx environment w resume) t h =
        let started = start_evaluation_sandbox r ctx task.id environment (record t { world = w }) in
        run_evaluation-Confirmed (resume started.0.world started.1 started.2) started.0
          (ground arith)

    evaluate_stage-Confirmed :
        (t : TaskRun W S)
        → t.result.isolation.harness_stopped ≡ true
        → t.result.isolation.bridge_revoked ≡ true
        → Confirmed (evaluate_stage r task t)
    unfolding evaluate_stage record_evaluation
    evaluate_stage-Confirmed t stopped revoked = grind (arith, run_evaluation-Confirmed)

    isolate_stage-Isolated : (t : TaskRun W S) → Unreached t → Isolated (isolate_stage r task t)
    unfolding isolate_stage stop_harness_call stop_bridge_call block_evaluation
    isolate_stage-Isolated t h = grind (arith, evaluate_stage-Confirmed)

    run_agent-Unreached :
        (e : ToolEndpoint) (t : TaskRun W S) → Unreached t → Unreached (run_agent r task e t)
    unfolding run_agent start_harness_call run_harness_call record_run
    run_agent-Unreached e t h = ground arith

    bridge_stage-Isolated : (t : TaskRun W S) → Unreached t → Isolated (bridge_stage r task t)
    unfolding bridge_stage harness_stage start_bridge_call
    bridge_stage-Isolated t h = grind (arith, isolate_stage-Isolated, run_agent-Unreached)

    prepare_stage-Isolated : (t : TaskRun W S) → Unreached t → Isolated (prepare_stage r task t)
    unfolding prepare_stage prepare_sandbox_call
    prepare_stage-Isolated t h = grind (arith, bridge_stage-Isolated)

    sandbox_stage-Isolated : (t : TaskRun W S) → Unreached t → Isolated (sandbox_stage r task t)
    unfolding sandbox_stage start_sandbox_call
    sandbox_stage-Isolated t h = grind (arith, prepare_stage-Isolated)

  module _ (r : Runner W S) where
    -- What the cleanup leaves alone.
    abbrev pub Same : TaskRun W S → TaskRun W S → Type 0
    Same t t' = (t'.result ≡ t.result) × (evaluated t'.history ≡ evaluated t.history)

    stop_each-Same :
        (ctx : Context) (ss : List S) (t : TaskRun W S) → Same t (stop_each r ctx ss t).0
    unfolding stop_each stop_sandbox_call
    stop_each-Same ctx [] t = (refl, refl)
    stop_each-Same ctx (s ∷ ss) t =
        ground (arith, stop_each-Same ctx ss (stop_sandbox_call r ctx (some s) t).0)

    cleanup_evaluation-Same :
        (ctx : Context) (t : TaskRun W S) → Same t (cleanup_evaluation r ctx t)
    unfolding cleanup_evaluation stop_evaluation
    cleanup_evaluation-Same ctx t =
        ground (arith, stop_each-Same ctx (reverse t.started) (record t { cleanup_used = true }))

    cleanup_harness-Same : (ctx : Context) (t : TaskRun W S) → Same t (cleanup_harness r ctx t)
    unfolding cleanup_harness stop_harness_call
    cleanup_harness-Same ctx t = ground arith

    cleanup_bridge-Same : (ctx : Context) (t : TaskRun W S) → Same t (cleanup_bridge r ctx t)
    unfolding cleanup_bridge stop_bridge_call
    cleanup_bridge-Same ctx t = ground arith

    cleanup_sandbox-Same : (ctx : Context) (t : TaskRun W S) → Same t (cleanup_sandbox r ctx t)
    unfolding cleanup_sandbox stop_sandbox_call
    cleanup_sandbox-Same ctx t = ground arith

    pub cleanup_all-Same : (ctx : Context) (t : TaskRun W S) → Same t (cleanup_all r ctx t)
    unfolding cleanup_all
    cleanup_all-Same ctx t =
        let t₁ = cleanup_evaluation r ctx t in
        let t₂ = cleanup_harness r ctx t₁ in
        let t₃ = cleanup_bridge r ctx t₂ in
        let (a, a') = cleanup_evaluation-Same ctx t in
        let (b, b') = cleanup_harness-Same ctx t₁ in
        let (c, c') = cleanup_bridge-Same ctx t₂ in
        let (d, d') = cleanup_sandbox-Same ctx t₃ in (d ∙ c ∙ b ∙ a, d' ∙ c' ∙ b' ∙ a')

    finish_tail-Isolated :
        (started_at : ℕ) (t : TaskRun W S)
        → Isolated t
        → Isolated (close_result r started_at (report_context r (settle_cleanup t)))
    unfolding close_result report_context settle_cleanup
    finish_tail-Isolated started_at t h = ground arith

    cleanup_all-Isolated :
        (ctx : Context) (t : TaskRun W S) → Isolated t → Isolated (cleanup_all r ctx t)
    cleanup_all-Isolated ctx t h = ground (arith, cleanup_all-Same ctx t)

    -- A task ends in one of three ways, whatever the roles do. Both gates are confirmed, and
    -- `Evaluate` was called; or one is not, the evaluation is reported as blocked, and `Evaluate`
    -- was not called; or the gates were never reached, and the evaluation is reported as not run,
    -- again without a call of `Evaluate`.
    pub run_task-Isolated : (task : Task) (w : W) → Isolated (run_task r task w).0
    unfolding run_task finish begin new_task_result
    run_task-Isolated task w =
        let t = begin r task w in
        finish_tail-Isolated (r.host.now w) _ (
          cleanup_all-Isolated (detached r.cleanup_timeout) _
            (sandbox_stage-Isolated r task t (refl, refl, refl, refl, refl)))
