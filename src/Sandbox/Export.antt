-- ===== src/Sandbox/Export.antt =====
-- pkg/sandbox/bridge.go: `ExportBridgeTarget`, what a bridge is told of a sandbox.
use aries.Base.{◌||◌, not, Option, none, some, if◌then◌else◌, Bytes, Result, ok, err}
use aries.Core.Errors.{GoError, message}
use aries.Sandbox.State.{Sandbox}

-- core.BridgeTarget.
pub record BridgeTarget : Type 0 where
  pub run_id : Bytes
  pub task_id : Bytes
  pub sandbox_id : Bytes
  pub backend : Bytes
  pub runtime_id : Bytes
  pub workdir : Bytes
  pub exec_user : Bytes

-- `backend` is the deployment's BridgeBackend, if it has one.
unfoldable pub export_bridge_target : Option Bytes → Sandbox → Result GoError BridgeTarget
export_bridge_target backend s =
    if not s.container_owned || (s.stopping || s.stopped)
    then err (message "sandbox is not available for bridge assignment")
    else elim backend [
      | none ↦ err (message "sandbox deployment does not support borrowed execution")
      | some name ↦ ok (record {
        run_id = s.run_id;
        task_id = s.task_id;
        sandbox_id = s.container_name;
        backend = name;
        runtime_id = s.container_id;
        workdir = s.workdir;
        exec_user = s.exec_user;
      })
    ]
