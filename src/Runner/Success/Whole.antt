-- ===== src/Runner/Success/Whole.antt =====
-- pkg/runner/runner.go, `runTask`: a task that returns no error was run in full.
use aries.Base.{
  ℕ, ◌≡◌, refl, sym, ap, ◌∙◌, ◌≢◌, inl, inr, true, List, [], ◌∷◌, reverse, none, some, arith,
  append-ne-nil, snoc-ne-nil, Bool-cases, List-cases,
}
use aries.Core.Errors.{join, join-eq-none}
use aries.Core.Types.{failed, Task, ToolEndpoint}
use aries.Runner.Roles.{Context, detached}
use aries.Runner.Options.{Runner}
use aries.Runner.TaskRun.{
  stop_sandbox, stop_harness, stop_bridge, TaskRun, stop_sandbox_call, stop_bridge_call,
  stop_harness_call,
}
use aries.Runner.Finish.{
  settle_cleanup, stop_each, stop_evaluation, cleanup_evaluation, cleanup_harness, cleanup_bridge,
  cleanup_sandbox, cleanup_all, report_context, close_result, finish,
}
use aries.Runner.Stages.{sandbox_stage, begin, run_task}
use aries.Runner.Ledger.{stop_each_errors}
use aries.Runner.Cleanup.{finish_tail}
use aries.Runner.Success.{Extends, Extends-trans}
use aries.Runner.Success.Agent.{full_calls, sandbox_stage_done}

module _ {W S : Type 0} (r : Runner W S) where
  stop_each-Extends :
      (ctx : Context) (ss : List S) (t : TaskRun W S)
      → Extends (stop_each r ctx ss t).0.history t.history
  unfolding stop_each stop_sandbox_call
  stop_each-Extends ctx [] t = ([], refl)
  stop_each-Extends ctx (s ∷ ss) t =
      let u = (stop_sandbox_call r ctx (some s) t).0 in
      let (later, grown) =
        Extends-trans t.history u.history _ (stop_sandbox ctx (some s) _ ∷ [], refl)
          (stop_each-Extends ctx ss u) in
      (later, ground (arith, grown))

  -- A step of the cleanup: the history grew, and the errors so far are as they were.
  abbrev Grows : TaskRun W S → TaskRun W S → Type 0
  Grows t t' = Extends t'.history t.history × (t'.all_errors ≡ t.all_errors)

  Grows-trans : (t u v : TaskRun W S) → Grows t u → Grows u v → Grows t v
  Grows-trans t u v (a, e) (b, f) = (Extends-trans t.history u.history v.history a b, f ∙ e)

  cleanup_evaluation-Grows :
      (ctx : Context) (t : TaskRun W S) → Grows t (cleanup_evaluation r ctx t)
  unfolding cleanup_evaluation stop_evaluation
  cleanup_evaluation-Grows ctx t =
      let used = record t { cleanup_used = true } in
      let (later, grown) = stop_each-Extends ctx (reverse t.started) used in
      let errors = stop_each_errors r ctx (reverse t.started) used in
      elim (List-cases t.started) [
        | inl none_started ↦ (([], ground (arith, none_started)), ground (arith, none_started))
        | inr (s, ss, some_started) ↦
            ((later, ground (arith, some_started, grown)), ground (arith, some_started, errors))
      ]

  cleanup_harness-Grows : (ctx : Context) (t : TaskRun W S) → Grows t (cleanup_harness r ctx t)
  unfolding cleanup_harness stop_harness_call
  cleanup_harness-Grows ctx t = elim (Bool-cases t.harness_active) [
    | inl live ↦
        ((stop_harness ctx (r.harness.stop ctx t.world).1 ∷ [], ground (arith, live)), ground arith)
    | inr idle ↦ (([], ground (arith, idle)), ground arith)
  ]

  cleanup_bridge-Grows : (ctx : Context) (t : TaskRun W S) → Grows t (cleanup_bridge r ctx t)
  unfolding cleanup_bridge stop_bridge_call
  cleanup_bridge-Grows ctx t = elim (Bool-cases t.bridge_active) [
    | inl live ↦
        ((stop_bridge ctx (r.bridge.stop ctx t.world).1 ∷ [], ground (arith, live)), ground arith)
    | inr idle ↦ (([], ground (arith, idle)), ground arith)
  ]

  cleanup_sandbox-Grows : (ctx : Context) (t : TaskRun W S) → Grows t (cleanup_sandbox r ctx t)
  unfolding cleanup_sandbox stop_sandbox_call
  cleanup_sandbox-Grows ctx t = elim (Bool-cases t.sandbox_active) [
    | inl live ↦ (
      (
        stop_sandbox ctx t.sandbox (r.tool_sandbox.stop ctx t.sandbox t.world).1 ∷ [],
        ground (arith, live),
      ),
      ground arith,
    )
    | inr idle ↦ (([], ground (arith, idle)), ground arith)
  ]

  cleanup_all-Grows : (ctx : Context) (t : TaskRun W S) → Grows t (cleanup_all r ctx t)
  unfolding cleanup_all
  cleanup_all-Grows ctx t =
      let t₁ = cleanup_evaluation r ctx t in
      let t₂ = cleanup_harness r ctx t₁ in
      let t₃ = cleanup_bridge r ctx t₂ in
      let t₄ = cleanup_sandbox r ctx t₃ in
      Grows-trans t t₁ t₄ (cleanup_evaluation-Grows ctx t) (
        Grows-trans t₁ t₂ t₄ (cleanup_harness-Grows ctx t₁)
          (Grows-trans t₂ t₃ t₄ (cleanup_bridge-Grows ctx t₂) (cleanup_sandbox-Grows ctx t₃)))

  settle_cleanup_done :
      (t : TaskRun W S)
      → (settle_cleanup t).all_errors ≡ []
      → (t.all_errors ≡ []) × ((settle_cleanup t).result.cleanup.status ≢ failed)
  unfolding settle_cleanup
  settle_cleanup_done t h = grind (arith, append-ne-nil)

  report_context-world : (t : TaskRun W S) → (report_context r t).world ≡ t.world
  unfolding report_context
  report_context-world t = ground arith

  report_context_done :
      (t : TaskRun W S)
      → (report_context r t).all_errors ≡ []
      → (t.all_errors ≡ []) × (r.host.ctx_err t.world ≡ none)
  unfolding report_context join
  report_context_done t h = grind (arith, snoc-ne-nil)

  finish_done :
      (started_at : ℕ) (t : TaskRun W S)
      → (finish r started_at t).1 ≡ none
      → let t' = (finish r started_at t).0 in
        Extends t'.history t.history
        × (t.all_errors ≡ [])
        × (t'.result.cleanup.status ≢ failed)
        × (r.host.ctx_err t'.world ≡ none)
  unfolding finish close_result
  finish_done started_at t h =
      let t₁ = cleanup_all r (detached r.cleanup_timeout) t in
      let t₂ = settle_cleanup t₁ in
      let (grown, kept) = cleanup_all-Grows (detached r.cleanup_timeout) t in
      let (same, outcome) = finish_tail r started_at t in
      let (clean, unended) = report_context_done t₂ (join-eq-none _ h) in
      let (clean', unfailed) = settle_cleanup_done t₁ clean in
      (
        (grown.0, same ∙ grown.1),
        sym kept ∙ clean',
        (λ e. unfailed (ap (λ c. c.status) (sym outcome) ∙ e)),
        ap r.host.ctx_err (report_context-world t₂) ∙ unended,
      )

  -- A task that returns no error was run in full: its first calls are, each without an error, the
  -- start and preparation of the sandbox, the start of the bridge, the start and run of the harness,
  -- the two confirmed stops, and `Evaluate`, in this order and with these arguments; nothing came
  -- between them. Its cleanup did not fail, and the run's context had not ended.
  pub run_task-full :
      (task : Task) (w : W)
      → (run_task r task w).1 ≡ none
      → ((s : S) × (e : ToolEndpoint) × Extends
            (run_task r task w).0.history
            (full_calls r task s e))
        × ((run_task r task w).0.result.cleanup.status ≢ failed)
        × (r.host.ctx_err (run_task r task w).0.world ≡ none)
  unfolding run_task
  run_task-full task w h =
      let t = sandbox_stage r task (begin r task w) in
      let (grown, clean, unfailed, unended) = finish_done (r.host.now w) t h in
      let (s, e, reached) = sandbox_stage_done r task w clean in
      ((s, e, Extends-trans (full_calls r task s e) t.history _ reached grown), unfailed, unended)
