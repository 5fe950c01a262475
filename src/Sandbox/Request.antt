-- ===== src/Sandbox/Request.antt =====
-- pkg/sandbox/sandbox.go and core/types.go: the request for a sandbox, its checks, and the request
-- that the deployment gets. Texts are bytes.
use aries.Base.{
  ℕ, ℤ, ◌+◌, ◌-◌, ◌*◌, ◌/◌, ◌%◌, ◌^◌, Bool, true, false, ◌&&◌, ◌||◌, not, List, [], ◌∷◌, ◌++◌,
  Option, none, some, ◌==◌, ltb, leb, if◌then◌else◌, Bytes, codes, bytes_eq, has_prefix, insert,
  map,
}
use aries.Core.Errors.{GoError, message, wrapped}
use aries.Core.Types.{Float64, RuntimePlacement}
use aries.Image.{ImageParser, validate_pull_image}
use aries.Sandbox.Checks.{
  is_negative, within, valid_variables, validate_identity, validate_workdir, validate_exec_user,
}

-- core.TaskMCPService, core.Environment and core.SandboxRequest, as far as the sandbox reads them.
pub record McpService : Type 0 where
  pub name : Bytes
  pub port : ℤ
  pub path : Bytes

pub record Wanted : Type 0 where
  pub image : Bytes
  pub workdir : Bytes
  pub cpu : Float64
  pub memory_mb : ℤ
  pub storage_mb : ℤ
  pub gpus : ℤ
  pub env : List (Bytes × Bytes)
  pub search_port : ℤ
  pub mcp : List McpService
  pub exec_user : Bytes

pub record Request : Type 0 where
  pub run_id : Bytes
  pub task_id : Bytes
  pub purpose : Bytes
  pub wanted : Wanted

abbrev pub is_port : ℤ → Bool
is_port p = within 65535 p && not (within 0 p)

abbrev pub valid_services : List McpService → Bool
valid_services [] = true
valid_services (s ∷ ss) =
    not (bytes_eq s.name [])
    && (is_port s.port
        && ((bytes_eq s.path [] || has_prefix s.path (codes "/")) && valid_services ss))

-- The parts of a float64: its exponent's field, and its significand as a whole number. A finite
-- value is significand * 2 ^ (max exponent 1) / 2 ^ 1075.
abbrev pub exponent : Float64 → ℕ
exponent f = f / 2 ^ 52 % 2 ^ 11

abbrev pub significand : Float64 → ℕ
significand f = if exponent f == 0 then f % 2 ^ 52 else f % 2 ^ 52 + 2 ^ 52

-- The test on the CPU: NaN and infinities have the greatest exponent, and a product that rounds to
-- 2 ^ 63 is at least 2 ^ 63 - 512, half-way from the float64 below it.
unfoldable pub valid_cpu : Float64 → Bool
valid_cpu f =
    if exponent f == 2047
    then false
    else if leb (2 ^ 63) f
    then significand f == 0
    else ltb (significand f * 10 ^ 9 * 2 ^ (if exponent f == 0 then 1 else exponent f))
        ((2 ^ 63 - 512) * 2 ^ 1075)

unfoldable pub valid_sizes : Wanted → Bool
valid_sizes e =
    within (2 ^ 43 - 1) e.memory_mb && (not (is_negative e.storage_mb) && not (is_negative e.gpus))

-- The checks after the image's.
unfoldable pub validate_resources : Wanted → Option GoError
validate_resources e = elim (validate_workdir e.workdir) [
  | some f ↦ some (wrapped "invalid sandbox workdir" f)
  | none ↦ elim (validate_exec_user e.exec_user) [
    | some f ↦ some (wrapped "invalid sandbox exec user" f)
    | none ↦
        if not (valid_cpu e.cpu)
        then some
            (message "sandbox CPU must be finite, nonnegative, and convert to NanoCPUs below 2^63")
        else if not (valid_sizes e)
        then some (message "sandbox memory, storage, and GPU counts must be nonnegative")
        else if not (valid_variables e.env)
        then some (message "invalid sandbox environment")
        else none
  ]
]

unfoldable pub validate_environment : ImageParser → Wanted → Option GoError
validate_environment parse e =
    if not (within 65535 e.search_port)
    then some (message "invalid task search service port")
    else if not (valid_services e.mcp)
    then some (message "invalid task MCP service")
    else elim (validate_pull_image parse e.image) [
      | some f ↦ some (wrapped "invalid sandbox image" f)
      | none ↦ validate_resources e
    ]

abbrev pub evaluation_purpose : Bytes
evaluation_purpose = codes "evaluation"

-- The checks of `Start` before anything is made.
unfoldable pub validate_request : ImageParser → Request → Option GoError
validate_request parse r = elim (validate_identity (codes "run") r.run_id) [
  | some e ↦ some e
  | none ↦ elim (validate_identity (codes "task") r.task_id) [
    | some e ↦ some e
    | none ↦
        if not (bytes_eq r.purpose [] || bytes_eq r.purpose evaluation_purpose)
        then some (message "unsupported sandbox purpose")
        else validate_environment parse r.wanted
  ]
]

unfoldable pub sandbox_component : Request → Bytes
sandbox_component r =
    if bytes_eq r.purpose evaluation_purpose then codes "evaluation-sandbox" else codes "sandbox"

-- The labels of the task's container.
unfoldable pub ownership_labels : Request → List (Bytes × Bytes)
ownership_labels r =
    (codes "aries.managed", codes "true")
    ∷ (codes "aries.kind", codes "task-container")
    ∷ (codes "aries.run", r.run_id)
    ∷ (codes "aries.task", r.task_id)
    ∷ (codes "aries.component", sandbox_component r)
    ∷ []

-- `a < b` on strings.
unfoldable pub bytes_lt : Bytes → Bytes → Bool
bytes_lt a [] = false
bytes_lt [] (b ∷ bs) = true
bytes_lt (a ∷ as') (b ∷ bs) = if a == b then bytes_lt as' bs else ltb a b

-- The entries of a map in the order of their keys.
unfoldable pub place : Bytes × Bytes → List (Bytes × Bytes) → List (Bytes × Bytes)
place entry [] = entry ∷ []
place entry (e ∷ es) =
    let rest = place entry es in if bytes_lt entry.0 e.0 then entry ∷ e ∷ es else e ∷ rest

unfoldable pub sorted : List (Bytes × Bytes) → List (Bytes × Bytes)
sorted [] = []
sorted (e ∷ es) = place e (sorted es)

abbrev pub assignment : Bytes × Bytes → Bytes
assignment (key, value) = key ++ 61 ∷ value

unfoldable pub deployment_environment : List (Bytes × Bytes) → List Bytes
deployment_environment values = map assignment (sorted values)

-- `timezone` is what `os.Getenv("TZ")` gives.
unfoldable pub task_variables : Bytes → List (Bytes × Bytes) → List (Bytes × Bytes)
task_variables timezone values =
    insert (codes "DEBIAN_FRONTEND") (codes "noninteractive")
      (insert (codes "TZ") (if bytes_eq timezone [] then codes "UTC" else timezone) values)

unfoldable pub task_environment : Bytes → List (Bytes × Bytes) → List Bytes
task_environment timezone values = deployment_environment (task_variables timezone values)

-- deployment.Request, in the fields that a sandbox sets.
pub record DeploymentRequest : Type 0 where
  pub name : Bytes
  pub image : Bytes
  pub workdir : Bytes
  pub env : List Bytes
  pub entrypoint : List Bytes
  pub args : List Bytes
  pub labels : List (Bytes × Bytes)
  pub placement : RuntimePlacement
  pub storage_mb : ℤ
  pub gpus : ℤ
  pub init : Bool
  pub no_new_privileges : Bool
  pub allow_image_volumes : Bool
  pub cpu : Option Float64
  pub memory_mb : Option ℤ

-- `f > 0` on a float64 that passed the checks.
abbrev pub positive_float : Float64 → Bool
positive_float f = ltb f (2 ^ 63) && not (f == 0)

unfoldable pub deployment_request : Bytes → Bytes → RuntimePlacement → Request → DeploymentRequest
deployment_request name timezone placement r = record {
  name = name;
  image = r.wanted.image;
  workdir = r.wanted.workdir;
  env = task_environment timezone r.wanted.env;
  entrypoint = codes "/bin/sleep" ∷ [];
  args = codes "infinity" ∷ [];
  labels = ownership_labels r;
  placement = placement;
  storage_mb = r.wanted.storage_mb;
  gpus = r.wanted.gpus;
  init = true;
  no_new_privileges = not (bytes_eq r.wanted.exec_user []);
  allow_image_volumes = true;
  cpu = if positive_float r.wanted.cpu then some r.wanted.cpu else none;
  memory_mb =
      if within 0 r.wanted.memory_mb || is_negative r.wanted.memory_mb
      then none
      else some r.wanted.memory_mb;
}
