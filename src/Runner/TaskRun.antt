-- ===== src/Runner/TaskRun.antt =====
-- pkg/runner/runner.go, `runTask`: its local variables as one record, and its calls of the roles.
-- `history` is not in the source: it holds the calls made so far, the newest first.
use aries.Base.{String, Bool, List, [], ◌∷◌, ◌++◌, Option}
use aries.Core.Errors.{GoError}
use aries.Core.Types.{Task, SandboxRequest, ToolEndpoint, HarnessRequest, HarnessResult, TaskResult}
use aries.Runner.Roles.{Context}
use aries.Runner.Options.{Runner}

-- A call of a role, with what it was given and what it returned.
pub data Call (S : Type 0) : Type 0 where
  start_sandbox : Context → SandboxRequest → Option S → Option GoError → Call S
  stop_sandbox : Context → Option S → Option GoError → Call S
  prepare_sandbox : Context → Task → Option S → Option GoError → Call S
  start_bridge : Context → Option S → Option GoError → Call S
  stop_bridge : Context → Option GoError → Call S
  start_harness : Context → HarnessRequest → Option GoError → Call S
  run_harness : Context → String → Option GoError → Call S
  stop_harness : Context → Option GoError → Call S
  evaluate : Context → Task → Option S → Call S

pub record TaskRun (W S : Type 0) : Type 0 where
  pub world : W
  pub history : List (Call S)
  pub result : TaskResult
  pub sandbox : Option S
  pub sandbox_active : Bool
  pub bridge_active : Bool
  pub harness_active : Bool
  pub cleanup_used : Bool
  pub all_errors : List GoError
  pub cleanup_errors : List GoError
  pub started : List S  -- `evaluation.started`

module _ {W S : Type 0} where
  abbrev pub fail : GoError → TaskRun W S → TaskRun W S
  fail e t = record t { all_errors = t.all_errors ++ e ∷ [] }

  abbrev pub fail_cleanup : GoError → TaskRun W S → TaskRun W S
  fail_cleanup e t = record t { cleanup_errors = t.cleanup_errors ++ e ∷ [] }

  abbrev pub note : Call S → W → TaskRun W S → TaskRun W S
  note c w t = record t { world = w; history = c ∷ t.history }

  module _ (r : Runner W S) where
    unfoldable pub start_sandbox_call :
        Context → SandboxRequest → TaskRun W S → TaskRun W S × Option S × Option GoError
    start_sandbox_call ctx request t =
        let (w, sandbox, err) = r.tool_sandbox.start ctx request t.world in
        (note (start_sandbox ctx request sandbox err) w t, sandbox, err)

    unfoldable pub stop_sandbox_call :
        Context → Option S → TaskRun W S → TaskRun W S × Option GoError
    stop_sandbox_call ctx sandbox t =
        let (w, err) = r.tool_sandbox.stop ctx sandbox t.world in
        (note (stop_sandbox ctx sandbox err) w t, err)

    unfoldable pub prepare_sandbox_call :
        Context → Task → Option S → TaskRun W S → TaskRun W S × Option GoError
    prepare_sandbox_call ctx task sandbox t =
        let (w, err) = r.benchmark.prepare_sandbox ctx task sandbox t.world in
        (note (prepare_sandbox ctx task sandbox err) w t, err)

    unfoldable pub start_bridge_call :
        Context → Option S → TaskRun W S → TaskRun W S × ToolEndpoint × Option GoError
    start_bridge_call ctx sandbox t =
        let (w, endpoint, err) = r.bridge.start ctx sandbox t.world in
        (note (start_bridge ctx sandbox err) w t, endpoint, err)

    unfoldable pub stop_bridge_call : Context → TaskRun W S → TaskRun W S × Option GoError
    stop_bridge_call ctx t =
        let (w, err) = r.bridge.stop ctx t.world in (note (stop_bridge ctx err) w t, err)

    unfoldable pub start_harness_call :
        Context → HarnessRequest → TaskRun W S → TaskRun W S × Option GoError
    start_harness_call ctx request t =
        let (w, err) = r.harness.start ctx request t.world in
        (note (start_harness ctx request err) w t, err)

    unfoldable pub run_harness_call :
        Context → String → TaskRun W S → TaskRun W S × HarnessResult × Option GoError
    run_harness_call ctx instruction t =
        let (w, outcome, err) = r.harness.run ctx instruction t.world in
        (note (run_harness ctx instruction err) w t, outcome, err)

    unfoldable pub stop_harness_call : Context → TaskRun W S → TaskRun W S × Option GoError
    stop_harness_call ctx t =
        let (w, err) = r.harness.stop ctx t.world in (note (stop_harness ctx err) w t, err)
