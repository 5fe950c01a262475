-- ===== src/Runner/Stages.antt =====
-- pkg/runner/runner.go, `runTask`: the stages before `finish`. Each stage ends in the next one, or
-- returns where the source returns `finish()`; `run_task` puts `finish` behind them.
use aries.Base.{
  String, true, false, List, [], ◌∷◌, ◌++◌, Option, none, some, if◌then◌else◌, ◌||◌, Int.pos,
}
use aries.Core.Errors.{canceled, deadline_exceeded, GoError, message, wrapped, join, is}
use aries.Core.Types.{
  Task, Purpose, SandboxRequest, ToolEndpoint, HarnessRequest, HarnessResult, Evaluation, Status,
  TaskResult, not_started, not_run, not_enabled, not_needed, succeeded, failed, confirmed,
  blocked_isolation, unset,
}
use aries.Runner.Roles.{run_context, detached, Evaluating, finished, starts}
use aries.Runner.Options.{Runner, effective_runtime}
use aries.Runner.TaskRun.{
  TaskRun, fail, note, evaluate, start_sandbox_call, prepare_sandbox_call, start_bridge_call,
  stop_bridge_call, start_harness_call, run_harness_call, stop_harness_call,
}
use aries.Runner.Finish.{start_evaluation_sandbox, finish}

unfoldable pub failure_status : GoError → Status
failure_status err = if is err canceled || is err deadline_exceeded then Status.canceled else failed

-- A role that returns no error and no status has succeeded.
abbrev pub default_status : Status → Status
default_status unset = succeeded
default_status s = s

unfoldable pub new_task_result : String → TaskResult
new_task_result task_id = record {
  task_id = task_id;
  tool_log_paths = [];
  harness = record {
    status = not_started;
    final_response = "";
    duration = pos 0;
    log_paths = [];
    error = none;
  };
  isolation = record {
    status = not_started;
    harness_stopped = false;
    bridge_revoked = false;
    error = none;
  };
  evaluation = record {
    status = not_run;
    score = 0;
    reward = 0;
    verifier_status = "";
    duration = pos 0;
    log_paths = [];
    error = none;
  };
  observer = record {
    reason = "";
    status = not_enabled;
    duration = pos 0;
    sample_count = pos 0;
    log_paths = [];
    error = none;
  };
  cleanup = record { status = not_needed; error = none };
  error = none;
  started_at = 0;
  duration = pos 0;
}

abbrev pub labelled : String → Option GoError → List GoError
labelled label none = []
labelled label (some e) = wrapped label e ∷ []

module _ {W S : Type 0} where
  abbrev pub set_harness : HarnessResult → TaskRun W S → TaskRun W S
  set_harness h t = record t { result = record t.result { harness = h } }

  abbrev pub set_evaluation : Evaluation → TaskRun W S → TaskRun W S
  set_evaluation e t = record t { result = record t.result { evaluation = e } }

  abbrev pub confirm_stopped : Option GoError → TaskRun W S → TaskRun W S
  confirm_stopped none t = record t {
    harness_active = false;
    result = record t.result { isolation = record t.result.isolation { harness_stopped = true } };
  }
  confirm_stopped (some e) t = t

  abbrev pub confirm_revoked : Option GoError → TaskRun W S → TaskRun W S
  confirm_revoked none t = record t {
    bridge_active = false;
    result = record t.result { isolation = record t.result.isolation { bridge_revoked = true } };
  }
  confirm_revoked (some e) t = t

  module _ (r : Runner W S) (task : Task) where
    -- The benchmark's run of `Evaluate`, the sandboxes that it starts on the way included.
    unfoldable pub run_evaluation :
        Evaluating W S → TaskRun W S → TaskRun W S × Evaluation × Option GoError
    run_evaluation (finished w evaluation err) t = (record t { world = w }, evaluation, err)
    run_evaluation (starts ctx environment w resume) t =
        let (t', sandbox, err) =
          start_evaluation_sandbox r ctx task.id environment (record t { world = w }) in
        run_evaluation (resume t'.world sandbox err) t'

    unfoldable pub record_evaluation : Evaluation → Option GoError → TaskRun W S → TaskRun W S
    record_evaluation evaluation none t =
        set_evaluation (record evaluation { status = default_status evaluation.status }) t
    record_evaluation evaluation (some e) t =
        fail (wrapped "evaluate sandbox" e)
          (set_evaluation (record evaluation { status = failure_status e; error = some e }) t)

    unfoldable pub evaluate_stage : TaskRun W S → TaskRun W S
    evaluate_stage t =
        let t' = note (evaluate run_context task t.sandbox) t.world (record t {
          result = record t.result { isolation = record t.result.isolation { status = confirmed } };
        }) in
        let (t'', evaluation, err) =
          run_evaluation (r.benchmark.evaluate run_context task t'.sandbox t'.world) t' in
        record_evaluation evaluation err t''

    unfoldable pub block_evaluation : List GoError → TaskRun W S → TaskRun W S
    block_evaluation errs t = record t {
      all_errors = t.all_errors ++ errs;
      result = record t.result {
        isolation = record t.result.isolation { status = blocked_isolation; error = join errs };
        evaluation = record t.result.evaluation {
          status = blocked_isolation;
          error = some (
              message
                "evaluation blocked because harness termination or bridge revocation was not confirmed");
        };
      };
    }

    -- The two positive gates before evaluation, under a context of their own.
    unfoldable pub isolate_stage : TaskRun W S → TaskRun W S
    isolate_stage t =
        let ctx = detached r.cleanup_timeout in
        let (t₁, stop_err) = stop_harness_call r ctx t in
        let (t₂, revoke_err) = stop_bridge_call r ctx (confirm_stopped stop_err t₁) in
        let t₃ = confirm_revoked revoke_err t₂ in
        elim (labelled "confirm harness stopped" stop_err
          ++ labelled "confirm bridge revoked" revoke_err) [
            | [] ↦ evaluate_stage t₃
            | e ∷ es ↦ block_evaluation (e ∷ es) t₃
          ]

    unfoldable pub record_run : HarnessResult → Option GoError → TaskRun W S → TaskRun W S
    record_run h none t = set_harness (record h { status = default_status h.status }) t
    record_run h (some e) t =
        fail (wrapped "run harness" e)
          (set_harness (record h { status = failure_status e; error = some e }) t)

    unfoldable pub harness_request : ToolEndpoint → Option S → HarnessRequest
    harness_request endpoint sandbox =
        let (_, cpu, memory_mb, timeout) = effective_runtime task r.runtime_overrides in
        record {
          connectivity = r.host.connectivity sandbox;
          run_id = r.run_id;
          task_id = task.id;
          endpoint = endpoint;
          model = r.model;
          timeout = timeout;
          cpu = cpu;
          memory_mb = memory_mb;
          output_dir = r.output_dir;
          no_sandbox_tools = task.no_sandbox_tools;
        }

    unfoldable pub run_agent : ToolEndpoint → TaskRun W S → TaskRun W S
    run_agent endpoint t =
        let request = harness_request endpoint t.sandbox in
        let (t₁, err) = start_harness_call r run_context request t in
        let t₂ = record t₁ { harness_active = true } in
        let (t₃, outcome, run_err) = run_harness_call r run_context task.instruction t₂ in
        let ran = record_run outcome run_err t₃ in
        elim err [
          | some e ↦ fail (wrapped "start harness" e) (
              set_harness (record t₂.result.harness { status = failure_status e; error = some e })
                t₂)
          | none ↦ ran
        ]

    -- A harness whose start failed is stopped and confirmed like any other.
    unfoldable pub harness_stage : ToolEndpoint → TaskRun W S → TaskRun W S
    harness_stage endpoint t = isolate_stage (run_agent endpoint t)

    unfoldable pub bridge_stage : TaskRun W S → TaskRun W S
    bridge_stage t =
        let (t₁, endpoint, err) = start_bridge_call r run_context t.sandbox t in
        let t₂ = record t₁ { bridge_active = true } in
        elim err [
          | some e ↦ fail (wrapped "start bridge" e) t₂
          | none ↦
              harness_stage endpoint
                (record t₂ { result = record t₂.result { tool_log_paths = endpoint.log_paths } })
        ]

    unfoldable pub prepare_stage : TaskRun W S → TaskRun W S
    prepare_stage t =
        let (t', err) = prepare_sandbox_call r run_context task t.sandbox t in
        elim err [ some e ↦ fail (wrapped "prepare sandbox" e) t' | none ↦ bridge_stage t' ]

    abbrev pub sandbox_request : SandboxRequest
    sandbox_request = record {
      run_id = r.run_id;
      task_id = task.id;
      purpose = Purpose.agent;
      environment = (effective_runtime task r.runtime_overrides).0;
    }

    unfoldable pub sandbox_stage : TaskRun W S → TaskRun W S
    sandbox_stage t =
        let (t₁, sandbox, err) =
          start_sandbox_call r run_context
            (record {
              run_id = r.run_id;
              task_id = task.id;
              purpose = Purpose.agent;
              environment = (effective_runtime task r.runtime_overrides).0;
            })
            t in
        let t₂ = record t₁ { sandbox = sandbox } in
        elim err [
          | some e ↦ fail (wrapped "start sandbox" e) t₂
          | none ↦ elim sandbox [
            | none ↦ fail (message "start sandbox: returned a nil sandbox") t₂
            | some s ↦ prepare_stage (record t₂ { sandbox_active = true })
          ]
        ]

    -- The variables of `runTask` as they are declared.
    unfoldable pub begin : W → TaskRun W S
    begin w = record {
      world = w;
      history = [];
      result = record (new_task_result task.id) { started_at = r.host.now w };
      sandbox = none;
      sandbox_active = false;
      bridge_active = false;
      harness_active = false;
      cleanup_used = false;
      all_errors = [];
      cleanup_errors = [];
      started = [];
    }

    unfoldable pub run_task : W → TaskRun W S × Option GoError
    run_task w = finish r (r.host.now w) (sandbox_stage (begin w))
