-- ===== src/Runner/Cleanup.antt =====
-- pkg/runner/runner.go, `finish`: what the cleanup of a task leaves behind, and what it reports.
use aries.Base.{
  ℕ, ◌≡◌, ◌≢◌, ◌⊎◌, false, true, [], reverse, none, arith, length, length-reverse, snoc-ne-nil,
  eq_nil_of_length, ap, ◌∙◌,
}
use aries.Core.Errors.{join-eq-none}
use aries.Core.Types.{Task, failed}
use aries.Runner.Roles.{Context, detached}
use aries.Runner.Options.{Runner}
use aries.Runner.TaskRun.{TaskRun, stop_sandbox_call, stop_bridge_call, stop_harness_call}
use aries.Runner.Finish.{
  settle_cleanup, stop_each, stop_evaluation, cleanup_evaluation, cleanup_harness, cleanup_bridge,
  cleanup_sandbox, cleanup_all, report_context, close_result, finish,
}
use aries.Runner.Stages.{sandbox_stage, begin, run_task}
use aries.Runner.Ledger.{
  opened, closed, harness_live, bridge_live, Tracks, stop_each_counts, stop_each_errors,
  cleanup_evaluation-Tracks, cleanup_harness-Tracks, cleanup_bridge-Tracks, cleanup_sandbox-Tracks,
}
use aries.Runner.Ledger.Stages.{before_finish-Tracks}

-- Nothing had to be cleaned up so far, or nothing failed.
abbrev Clear : {W S : Type 0} → TaskRun W S → Type 0
Clear t = (t.cleanup_used ≡ false) ⊎ (t.cleanup_errors ≡ [])

module _ {W S : Type 0} (r : Runner W S) (ctx : Context) where
  stop_evaluation-started :
      (t : TaskRun W S)
      → (stop_evaluation r ctx t).1 ≡ none
      → (stop_evaluation r ctx t).0.started ≡ []
  unfolding stop_evaluation
  stop_evaluation-started t h =
      let (_, _, counted, _, _, _, _, _, _) =
        stop_each_counts (λ s. 1) r ctx (reverse t.started) t in
      let errs = (stop_each r ctx (reverse t.started) t).1 in
      let remaining = (stop_each r ctx (reverse t.started) t).2 in
      eq_nil_of_length _
        (omega (arith, counted, length-reverse remaining, ap length (join-eq-none errs h)))

  cleanup_evaluation-Clear :
      (t : TaskRun W S)
      → Clear (cleanup_evaluation r ctx t)
      → Clear t × ((cleanup_evaluation r ctx t).started ≡ [])
  unfolding cleanup_evaluation stop_evaluation
  cleanup_evaluation-Clear t h =
      let used = record t { cleanup_used = true } in
      grind (
        arith,
        snoc-ne-nil,
        stop_evaluation-started used,
        stop_each_errors r ctx (reverse t.started) used,
      )

  cleanup_harness-Clear :
      (t : TaskRun W S)
      → Clear (cleanup_harness r ctx t)
      → Clear t
        × ((cleanup_harness r ctx t).harness_active ≡ false)
        × ((cleanup_harness r ctx t).started ≡ t.started)
  unfolding cleanup_harness stop_harness_call
  cleanup_harness-Clear t h = grind (arith, snoc-ne-nil)

  cleanup_bridge-Clear :
      (t : TaskRun W S)
      → Clear (cleanup_bridge r ctx t)
      → Clear t
        × ((cleanup_bridge r ctx t).bridge_active ≡ false)
        × ((cleanup_bridge r ctx t).harness_active ≡ t.harness_active)
        × ((cleanup_bridge r ctx t).started ≡ t.started)
  unfolding cleanup_bridge stop_bridge_call
  cleanup_bridge-Clear t h = grind (arith, snoc-ne-nil)

  cleanup_sandbox-Clear :
      (t : TaskRun W S)
      → Clear (cleanup_sandbox r ctx t)
      → Clear t
        × ((cleanup_sandbox r ctx t).sandbox_active ≡ false)
        × ((cleanup_sandbox r ctx t).bridge_active ≡ t.bridge_active)
        × ((cleanup_sandbox r ctx t).harness_active ≡ t.harness_active)
        × ((cleanup_sandbox r ctx t).started ≡ t.started)
  unfolding cleanup_sandbox stop_sandbox_call
  cleanup_sandbox-Clear t h = grind (arith, snoc-ne-nil)

  cleanup_all-Clear :
      (t : TaskRun W S)
      → Clear (cleanup_all r ctx t)
      → let t' = cleanup_all r ctx t in
        (t'.sandbox_active ≡ false)
        × (t'.bridge_active ≡ false)
        × (t'.harness_active ≡ false)
        × (t'.started ≡ [])
  unfolding cleanup_all
  cleanup_all-Clear t h =
      let t₁ = cleanup_evaluation r ctx t in
      let t₂ = cleanup_harness r ctx t₁ in
      let t₃ = cleanup_bridge r ctx t₂ in
      let (h₃, idle, b₃, r₃, s₃) = cleanup_sandbox-Clear t₃ h in
      let (h₂, revoked, r₂, s₂) = cleanup_bridge-Clear t₂ h₃ in
      let (h₁, stopped, s₁) = cleanup_harness-Clear t₁ h₂ in
      let (_, empty) = cleanup_evaluation-Clear t h₁ in
      (idle, b₃ ∙ revoked, r₃ ∙ r₂ ∙ stopped, s₃ ∙ s₂ ∙ s₁ ∙ empty)

  cleanup_all-Tracks :
      (weight : S → ℕ) (t : TaskRun W S) → Tracks weight t → Tracks weight (cleanup_all r ctx t)
  unfolding cleanup_all
  cleanup_all-Tracks weight t h = cleanup_sandbox-Tracks weight r ctx _ (
      cleanup_bridge-Tracks weight r ctx _
        (cleanup_harness-Tracks weight r ctx _ (cleanup_evaluation-Tracks weight r ctx t h)))

module _ {W S : Type 0} (r : Runner W S) where
  settle_cleanup-Clear :
      (t : TaskRun W S) → (settle_cleanup t).result.cleanup.status ≢ failed → Clear t
  unfolding settle_cleanup
  settle_cleanup-Clear t h = ground arith

  -- After the cleanup only the result and the list of errors change.
  pub finish_tail :
      (started_at : ℕ) (t : TaskRun W S)
      → let t' = (finish r started_at t).0 in
        let t₁ = cleanup_all r (detached r.cleanup_timeout) t in
        (t'.history ≡ t₁.history) × (t'.result.cleanup ≡ (settle_cleanup t₁).result.cleanup)
  unfolding finish report_context close_result settle_cleanup
  finish_tail started_at t = ground arith

  -- Whatever the roles do, a task whose cleanup status is not `failed` leaves nothing behind: the
  -- sandboxes of which a stop was confirmed are those that were started (the task's own and those
  -- of its evaluation), each as often, so that they weigh the same under all weights; and after the
  -- last start of the harness and of the bridge a stop was confirmed.
  pub run_task-clean :
      (weight : S → ℕ) (task : Task) (w : W)
      → let t = (run_task r task w).0 in
        t.result.cleanup.status ≢ failed
        → (opened weight t.history ≡ closed weight t.history)
          × (harness_live t.history ≡ false)
          × (bridge_live t.history ≡ false)
  unfolding run_task
  run_task-clean weight task w h =
      let t = sandbox_stage r task (begin r task w) in
      let ctx = detached r.cleanup_timeout in
      let (same, outcome) = finish_tail (r.host.now w) t in
      let tracked = cleanup_all-Tracks r ctx weight t (before_finish-Tracks weight r task w) in
      let clear =
        settle_cleanup-Clear (cleanup_all r ctx t) (λ e. h (ap (λ c. c.status) outcome ∙ e)) in
      let (idle, revoked, stopped, empty) = cleanup_all-Clear r ctx t clear in
      ground (arith, tracked, same, idle, revoked, stopped, empty)
