-- ===== src/Runner/Options.antt =====
-- pkg/runner/runner.go: the options, `New`, and the runtime overrides of a task.
use aries.Base.{
  String, Bool, Option, none, some, ℤ, is_zero, is_nonpos, pos, ◌*◌, ◌^◌, if◌then◌else◌,
}
use text.Mathlib.Text.{◌==◌ as str_eq}
use aries.Core.Errors.{GoError, message}
use aries.Core.Types.{Float64, is_zero_float, Duration, Environment, Task, ModelConfig}
use aries.Runner.Roles.{Host, Benchmark, AgentHarness, ToolSandbox, ToolBridge}

pub record ResourceOverrides : Type 0 where
  pub cpu : Option Float64
  pub memory_mb : Option ℤ

pub record RuntimeOverrides : Type 0 where
  pub harness_resources : ResourceOverrides
  pub agent_sandbox_resources : ResourceOverrides
  pub agent_timeout : Option Duration

-- The logger is left out.
pub record Options : Type 0 where
  pub name : String
  pub run_id : String
  pub output_dir : String
  pub model : ModelConfig
  pub cleanup_timeout : Duration
  pub runtime_overrides : RuntimeOverrides

pub record Runner (W S : Type 0) : Type 0 where
  pub benchmark : Benchmark W S
  pub harness : AgentHarness W
  pub tool_sandbox : ToolSandbox W S
  pub bridge : ToolBridge W S
  pub host : Host W S
  pub name : String
  pub run_id : String
  pub output_dir : String
  pub model : ModelConfig
  pub cleanup_timeout : Duration
  pub runtime_overrides : RuntimeOverrides

-- 30 seconds in nanoseconds.
abbrev pub default_cleanup_timeout : Duration
default_cleanup_timeout = pos (30 * 10 ^ 9)

-- A pointer to a number is an `Option`: a copy of it is a fresh value with the same content.
abbrev pub clone_float : Option Float64 → Option Float64
clone_float none = none
clone_float (some value) = some value

abbrev pub clone_int : Option ℤ → Option ℤ
clone_int none = none
clone_int (some value) = some value

abbrev pub clone_resource_overrides : ResourceOverrides → ResourceOverrides
clone_resource_overrides resources = record {
  cpu = clone_float resources.cpu;
  memory_mb = clone_int resources.memory_mb;
}

abbrev pub clone_runtime_overrides : RuntimeOverrides → RuntimeOverrides
clone_runtime_overrides overrides = record {
  harness_resources = clone_resource_overrides overrides.harness_resources;
  agent_sandbox_resources = clone_resource_overrides overrides.agent_sandbox_resources;
  agent_timeout = clone_int overrides.agent_timeout;
}

abbrev pub value_or {ℓ} : {A : Type ℓ} → Option A → A → A
value_or none d = d
value_or (some value) d = value

-- A zero harness dimension means unlimited, which the request expresses by omission.
abbrev pub unlimited_if {ℓ} : {A : Type ℓ} → (A → Bool) → Option A → Option A
unlimited_if zero? none = none
unlimited_if zero? (some value) = if zero? value then none else some value

-- The environment, harness CPU, harness memory and timeout in force for a task.
unfoldable pub effective_runtime :
    Task → RuntimeOverrides → Environment × Option Float64 × Option ℤ × Duration
effective_runtime original overrides = (
  record original.environment {
    cpu = value_or overrides.agent_sandbox_resources.cpu original.environment.cpu;
    memory_mb = value_or overrides.agent_sandbox_resources.memory_mb original.environment.memory_mb;
  },
  unlimited_if is_zero_float (clone_float overrides.harness_resources.cpu),
  unlimited_if is_zero (clone_int overrides.harness_resources.memory_mb),
  value_or overrides.agent_timeout original.timeout,
)

pub data NewResult (W S : Type 0) : Type 0 where
  ok : Runner W S → NewResult W S
  err : GoError → NewResult W S

-- The role values may be nil. The host is the runner's surroundings, not an argument of the source.
module _ {W S : Type 0} (host : Host W S) where
  accept :
      Benchmark W S → AgentHarness W → ToolSandbox W S → ToolBridge W S → Options → NewResult W S
  accept benchmark harness tool_sandbox bridge options =
      if str_eq options.run_id ""
      then err (message "run ID is required")
      else ok (record {
        benchmark = benchmark;
        harness = harness;
        tool_sandbox = tool_sandbox;
        bridge = bridge;
        host = host;
        name = options.name;
        run_id = options.run_id;
        output_dir = options.output_dir;
        model = options.model;
        cleanup_timeout =
            if is_nonpos options.cleanup_timeout
            then default_cleanup_timeout
            else options.cleanup_timeout;
        runtime_overrides = clone_runtime_overrides options.runtime_overrides;
      })

  unfoldable pub new :
      Option (Benchmark W S)
      → Option (AgentHarness W)
      → Option (ToolSandbox W S)
      → Option (ToolBridge W S)
      → Options
      → NewResult W S
  unfolding accept
  new none harness tool_sandbox bridge options = err (message "benchmark is required")
  new (some b) none tool_sandbox bridge options = err (message "agent harness is required")
  new (some b) (some h) none bridge options = err (message "tool sandbox is required")
  new (some b) (some h) (some s) none options = err (message "tool bridge is required")
  new (some b) (some h) (some s) (some t) options = accept b h s t options
