-- ===== src/Runner/Reports.antt =====
-- pkg/runner/runner.go, `finish`: no failure of a task is lost.
use aries.Base.{
  ◌≡◌, refl, sym, ap, ◌∙◌, ◌≢◌, true, List, [], ◌∷◌, ◌++◌, none, some, arith, append-ne-nil,
  Bool-cases, inl, inr,
}
use aries.Core.Errors.{
  Sentinel, same_sentinel_self, GoError, sentinel, wrapped, is, join, join-eq-none, errors_is,
  errors_is-join, some_is, some_is-append,
}
use aries.Core.Types.{Task, failed}
use aries.Runner.Roles.{detached}
use aries.Runner.Options.{Runner}
use aries.Runner.TaskRun.{TaskRun}
use aries.Runner.Finish.{settle_cleanup, cleanup_all, report_context, close_result, finish}
use aries.Runner.Stages.{sandbox_stage, begin, run_task}

some_is_snoc :
    (es : List GoError) (c : Sentinel)
    → some_is (es ++ wrapped "run context" (sentinel c) ∷ []) c ≡ true
unfolding is
some_is_snoc es c =
    ground
      (arith, some_is-append es (wrapped "run context" (sentinel c) ∷ []) c, same_sentinel_self c)

module _ {W S : Type 0} (r : Runner W S) where
  report_context-errors :
      (t : TaskRun W S) (c : Sentinel)
      → r.host.ctx_err t.world ≡ some c
      → some_is (report_context r t).all_errors c ≡ true
  unfolding report_context
  report_context-errors t c h = elim (Bool-cases (errors_is (join t.all_errors) c)) [
    | inl told ↦ ground (arith, h, told, errors_is-join t.all_errors c)
    | inr new ↦ ground (arith, h, new, some_is_snoc t.all_errors c)
  ]

  report_context-world : (t : TaskRun W S) → (report_context r t).world ≡ t.world
  unfolding report_context
  report_context-world t = ground arith

  report_context_keeps :
      (t : TaskRun W S) → (report_context r t).all_errors ≡ [] → t.all_errors ≡ []
  unfolding report_context
  report_context_keeps t h = grind (arith, append-ne-nil)

  settle_cleanup_failed :
      (t : TaskRun W S)
      → (settle_cleanup t).result.cleanup.status ≡ failed
      → (settle_cleanup t).all_errors ≢ []
  unfolding settle_cleanup
  settle_cleanup_failed t h = grind (arith, append-ne-nil)

  report_context-result : (t : TaskRun W S) → (report_context r t).result ≡ t.result
  unfolding report_context
  report_context-result t = ground arith

  -- Whatever the roles do, the error that a task returns is the one its result records; it is not
  -- nil if the cleanup failed; and if the run's context has ended by then, `errors.Is` finds the
  -- context's own error in it.
  pub run_task-reports :
      (task : Task) (w : W)
      → let (t, err) = run_task r task w in
        (t.result.error ≡ err)
        × (t.result.cleanup.status ≡ failed → err ≢ none)
        × ((c : Sentinel) → r.host.ctx_err t.world ≡ some c → errors_is err c ≡ true)
  unfolding run_task finish close_result
  run_task-reports task w =
      let t₁ = cleanup_all r (detached r.cleanup_timeout) (sandbox_stage r task (begin r task w)) in
      let t₂ = settle_cleanup t₁ in
      let t₃ = report_context r t₂ in
      (
        refl,
        (λ e none_told.
            settle_cleanup_failed t₁
              (ap (λ x. x.cleanup.status) (sym (report_context-result t₂)) ∙ e)
              (report_context_keeps t₂ (join-eq-none _ none_told))),
        (λ c ended.
            errors_is-join t₃.all_errors c
            ∙ report_context-errors t₂ c
                (ap r.host.ctx_err (sym (report_context-world t₂)) ∙ ended)),
      )
