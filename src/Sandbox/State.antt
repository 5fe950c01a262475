-- ===== src/Sandbox/State.antt =====
-- pkg/sandbox/sandbox.go: the manager, its sandboxes, and what they call. The source passes a
-- context to most calls; that it ended shows as an error of the call.
use aries.Base.{ℕ, Bool, ◌&&◌, not, List, Option, Bytes, Result}
use aries.Core.Errors.{GoError}
use aries.Core.Types.{HarnessConnectivity}
use aries.Image.{ImageParser}
use aries.Sandbox.Request.{Request, DeploymentRequest}
use aries.Sandbox.Checks.{Command}

-- The deployment, the task environment of one sandbox and the file system. A result of `exec` is
-- its exit code and its standard output.
pub record Host (W : Type 0) : Type 0 where
  pub parse_image : ImageParser
  pub new_id : W → W × Result GoError Bytes
  pub make_dir : Bytes → W → W × Option GoError
  pub timezone : W → Bytes
  pub new_environment : W → W × Bool
  pub start_environment : Request → Bytes → W → W × Result GoError HarnessConnectivity
  pub validate_environment : W → W × Option GoError
  pub stop_environment : W → W × Option GoError
  pub create : DeploymentRequest → W → W × Bytes × Option GoError
  pub validate : Bytes → DeploymentRequest → W → W × Option GoError
  pub start : Bytes → W → W × Option GoError
  pub running : Bytes → W → W × Bool × Option GoError
  pub exec : Bytes → Command → W → W × Result GoError (ℕ × Bytes)
  pub open_log : Bytes → Bytes → W → W × Option GoError
  pub logs_stream : Bytes → W → W × Option GoError
  pub stop : Bytes → W → W × Option GoError
  pub close : W → W × Option GoError

pub record Sandbox : Type 0 where
  pub owner : ℕ
  pub container_id : Bytes
  pub container_name : Bytes
  pub workdir : Bytes
  pub exec_user : Bytes
  pub artifact_dir : Bytes
  pub run_id : Bytes
  pub task_id : Bytes
  pub container_owned : Bool
  pub environment_owned : Bool
  pub stopped : Bool
  pub stopping : Bool
  pub stop_err : Option GoError

-- The manager, by the number that stands for its address. `pending` is a set, and a range over it
-- takes any order: here that of the list. `closed` is what the deployment's Close returned, once it
-- was called.
pub record Manager : Type 0 where
  pub id : ℕ
  pub output_dir : Bytes
  pub pending : List Sandbox
  pub closed : Option (Option GoError)

abbrev pub is_free : Sandbox → Bool
is_free s = not s.container_owned && not s.environment_owned
