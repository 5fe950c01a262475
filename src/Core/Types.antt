-- ===== src/Core/Types.antt =====
-- pkg/core/types.go and the server type of pkg/core/mcp.go, field for field.
use aries.Base.{ℕ, ◌^◌, Bool, ◌||◌, String, List, Option, ℤ, ◌==◌}
use aries.Core.Errors.{GoError}

-- A float64 by its IEEE-754 bit pattern: the code copies these values and compares them to zero.
abbrev pub Float64 : Type 0
Float64 = ℕ

-- +0 and -0.
abbrev pub is_zero_float : Float64 → Bool
is_zero_float f = f == 0 || f == 2 ^ 63

-- `time.Duration` and `int` are signed; no sum of them is formed here, so none wraps.
abbrev pub Duration : Type 0
Duration = ℤ

-- `map[string]string`, as its entries.
abbrev pub StringMap : Type 0
StringMap = List (String × String)

pub record TaskMcpService : Type 0 where
  pub name : String
  pub port : ℤ
  pub path : String
  pub transport : String
  pub timeout_seconds : ℤ

pub record TaskServices : Type 0 where
  pub search_port : ℤ
  pub mcp : List TaskMcpService

pub record Environment : Type 0 where
  pub image : String
  pub workdir : String
  pub cpu : Float64
  pub memory_mb : ℤ
  pub storage_mb : ℤ
  pub gpus : ℤ
  pub allow_network : Bool
  pub env : StringMap
  pub services : TaskServices
  pub exec_user : String

pub record Task : Type 0 where
  pub id : String
  pub instruction : String
  pub timeout : Duration
  pub environment : Environment
  pub no_sandbox_tools : Bool

-- `Purpose` is empty or "evaluation".
pub data Purpose : Type 0 where
  agent evaluation : Purpose

pub record SandboxRequest : Type 0 where
  pub run_id : String
  pub task_id : String
  pub purpose : Purpose
  pub environment : Environment

pub record ModelConfig : Type 0 where
  pub provider : String
  pub base_url : String
  pub model : String
  pub api_key_env : String
  pub reasoning_effort : String
  pub context_length : ℤ
  pub max_tokens : ℤ
  pub temperature : Option Float64

pub record ToolEndpoint : Type 0 where
  pub protocol : String
  pub address : String
  pub username : String
  pub client_command : String
  pub client_source_file : String
  pub log_paths : List String
  pub workdir : String

pub record McpServerConfig : Type 0 where
  pub name : String
  pub command : String
  pub args : List String
  pub url : String
  pub transport : String
  pub timeout_seconds : ℤ
  pub env : StringMap
  pub secret_env : StringMap

pub record RuntimePlacement : Type 0 where
  pub attachment_id : String

pub record HarnessConnectivity : Type 0 where
  pub placement : RuntimePlacement
  pub search_url : String
  pub mcp_servers : List McpServerConfig

pub record HarnessRequest : Type 0 where
  pub connectivity : HarnessConnectivity
  pub run_id : String
  pub task_id : String
  pub endpoint : ToolEndpoint
  pub model : ModelConfig
  pub timeout : Duration
  pub cpu : Option Float64
  pub memory_mb : Option ℤ
  pub output_dir : String
  pub no_sandbox_tools : Bool

-- The ten status constants; `unset` is the empty string and `other` any text that is no constant.
pub data Status : Type 0 where
  unset not_started not_run succeeded failed canceled confirmed blocked_isolation : Status
  not_enabled not_needed unsupported : Status
  other : String → Status

pub record HarnessResult : Type 0 where
  pub status : Status
  pub final_response : String
  pub duration : Duration
  pub log_paths : List String
  pub error : Option GoError

pub record IsolationResult : Type 0 where
  pub status : Status
  pub harness_stopped : Bool
  pub bridge_revoked : Bool
  pub error : Option GoError

pub record Evaluation : Type 0 where
  pub status : Status
  pub score : Float64
  pub reward : Float64
  pub verifier_status : String
  pub duration : Duration
  pub log_paths : List String
  pub error : Option GoError

pub record ObserverResult : Type 0 where
  pub reason : String
  pub status : Status
  pub duration : Duration
  pub sample_count : ℤ
  pub log_paths : List String
  pub error : Option GoError

pub record CleanupResult : Type 0 where
  pub status : Status
  pub error : Option GoError

pub record TaskResult : Type 0 where
  pub task_id : String
  pub tool_log_paths : List String
  pub harness : HarnessResult
  pub isolation : IsolationResult
  pub evaluation : Evaluation
  pub observer : ObserverResult
  pub cleanup : CleanupResult
  pub error : Option GoError
  pub started_at : ℕ
  pub duration : Duration

pub record RunSummary : Type 0 where
  pub tasks : ℕ
  pub harness_succeeded : ℕ
  pub harness_failed : ℕ
  pub evaluations_run : ℕ
  pub evaluations_succeeded : ℕ
  pub evaluations_failed : ℕ
  pub evaluations_blocked : ℕ
  pub cleanup_failed : ℕ

-- `Infrastructure` is set outside the Runner and left out.
pub record RunResult : Type 0 where
  pub name : String
  pub run_id : String
  pub tasks : List TaskResult
  pub summary : RunSummary
  pub duration : Duration
