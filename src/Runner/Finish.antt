-- ===== src/Runner/Finish.antt =====
-- pkg/runner/runner.go: the evaluation sandboxes of a task and `finish`, the cleanup that every path
-- of `runTask` ends in. The cleanup context is made once, for all the calls here.
use aries.Base.{
  ℕ, String, true, false, List, [], ◌∷◌, ◌++◌, reverse, Option, none, some, sub_ℕ, if◌then◌else◌,
}
use aries.Core.Errors.{GoError, sentinel, wrapped, join, errors_is, message}
use aries.Core.Types.{Environment, Purpose, CleanupResult, not_needed, succeeded, failed}
use aries.Runner.Roles.{Context, detached}
use aries.Runner.Options.{Runner}
use aries.Runner.TaskRun.{TaskRun, fail, fail_cleanup, start_sandbox_call, stop_sandbox_call}
use aries.Runner.TaskRun.{stop_bridge_call, stop_harness_call}

module _ {W S : Type 0} where
  abbrev pub set_cleanup : CleanupResult → TaskRun W S → TaskRun W S
  set_cleanup outcome t = record t { result = record t.result { cleanup = outcome } }

  -- What `result.Cleanup` becomes: not needed, succeeded, or failed with every error.
  unfoldable pub settle_cleanup : TaskRun W S → TaskRun W S
  settle_cleanup t =
      if t.cleanup_used
      then elim t.cleanup_errors [
        | [] ↦ set_cleanup (record t.result.cleanup { status = succeeded }) t
        | _ ∷ _ ↦
            set_cleanup (record { status = failed; error = join t.cleanup_errors })
              (record t { all_errors = t.all_errors ++ t.cleanup_errors })
      ]
      else set_cleanup (record t.result.cleanup { status = not_needed }) t

  abbrev pub report_cleanup : String → Option GoError → TaskRun W S → TaskRun W S
  report_cleanup label none t = t
  report_cleanup label (some e) t = fail_cleanup (wrapped label e) t

  module _ (r : Runner W S) where
    -- `evaluationSandboxes.Start`: the sandbox is owned once it is there.
    unfoldable pub start_evaluation_sandbox :
        Context → String → Environment → TaskRun W S → TaskRun W S × Option S × Option GoError
    start_evaluation_sandbox ctx task_id environment t =
        let (t', sandbox, err) =
          start_sandbox_call r ctx
            (record {
              run_id = r.run_id;
              task_id = task_id;
              purpose = Purpose.evaluation;
              environment = environment;
            })
            t in
        elim err [
          | some e ↦ (t', none, some e)
          | none ↦ elim sandbox [
            | none ↦ (t', none, some (message "start evaluation sandbox: returned a nil sandbox"))
            | some s ↦ (record t' { started = t'.started ++ s ∷ [] }, some s, none)
          ]
        ]

    -- The loop of `evaluationSandboxes.stop`: the errors, and the sandboxes that did not stop.
    unfoldable pub stop_each : Context → List S → TaskRun W S → TaskRun W S × List GoError × List S
    stop_each ctx [] t = (t, [], [])
    stop_each ctx (s ∷ ss) t =
        let (t', err) = stop_sandbox_call r ctx (some s) t in
        let (t'', errs, remaining) = stop_each ctx ss t' in
        elim err [ none ↦ (t'', errs, remaining) | some e ↦ (t'', e ∷ errs, s ∷ remaining) ]

    -- `evaluationSandboxes.stop`: newest first; what remains keeps its order.
    unfoldable pub stop_evaluation : Context → TaskRun W S → TaskRun W S × Option GoError
    stop_evaluation ctx t =
        let (t', errs, remaining) = stop_each ctx (reverse t.started) t in
        (record t' { started = reverse remaining }, join errs)

    unfoldable pub cleanup_evaluation : Context → TaskRun W S → TaskRun W S
    cleanup_evaluation ctx t = elim t.started [
      | [] ↦ t
      | _ ∷ _ ↦
          let (t', err) = stop_evaluation ctx (record t { cleanup_used = true }) in
          report_cleanup "cleanup evaluation sandbox" err t'
    ]

    unfoldable pub cleanup_harness : Context → TaskRun W S → TaskRun W S
    cleanup_harness ctx t =
        let (t', err) = stop_harness_call r ctx (record t { cleanup_used = true }) in
        if t.harness_active
        then elim err [
          | none ↦ record t' { harness_active = false }
          | some e ↦ fail_cleanup (wrapped "cleanup harness" e) t'
        ]
        else t

    unfoldable pub cleanup_bridge : Context → TaskRun W S → TaskRun W S
    cleanup_bridge ctx t =
        let (t', err) = stop_bridge_call r ctx (record t { cleanup_used = true }) in
        if t.bridge_active
        then elim err [
          | none ↦ record t' { bridge_active = false }
          | some e ↦ fail_cleanup (wrapped "cleanup bridge" e) t'
        ]
        else t

    unfoldable pub cleanup_sandbox : Context → TaskRun W S → TaskRun W S
    cleanup_sandbox ctx t =
        let (t', err) = stop_sandbox_call r ctx t.sandbox (record t { cleanup_used = true }) in
        if t.sandbox_active
        then elim err [
          | none ↦ record t' { sandbox_active = false }
          | some e ↦ fail_cleanup (wrapped "cleanup sandbox" e) t'
        ]
        else t

    unfoldable pub cleanup_all : Context → TaskRun W S → TaskRun W S
    cleanup_all ctx t =
        cleanup_sandbox ctx (cleanup_bridge ctx (cleanup_harness ctx (cleanup_evaluation ctx t)))

    -- A run context that ended is an error of the task, unless an error already says so.
    unfoldable pub report_context : TaskRun W S → TaskRun W S
    report_context t = elim (r.host.ctx_err t.world) [
      | none ↦ t
      | some c ↦
          if errors_is (join t.all_errors) c then t else fail (wrapped "run context" (sentinel c)) t
    ]

    unfoldable pub close_result : ℕ → TaskRun W S → TaskRun W S
    close_result started_at t = record t {
      result = record t.result {
        duration = sub_ℕ (r.host.now t.world) started_at;
        error = join t.all_errors;
      };
    }

    -- The task's result is in the record; beside it stands the error that `runTask` returns.
    unfoldable pub finish : ℕ → TaskRun W S → TaskRun W S × Option GoError
    finish started_at t =
        let t' = report_context (settle_cleanup (cleanup_all (detached r.cleanup_timeout) t)) in
        (close_result started_at t', join t'.all_errors)
