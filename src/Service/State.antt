-- ===== src/Service/State.antt =====
-- pkg/bridge/service.go and launch.go: the service's state, and what it calls.
use aries.Base.{
  ℤ, pos, negsuc, Bool, true, false, ◌&&◌, ◌||◌, not, List, [], ◌∷◌, ◌++◌, Option, none, some, leb,
  ◌==◌, if◌then◌else◌, Bytes, codes, bytes_eq, insert, Result, ok, err,
}
use aries.Core.Errors.{GoError, message}
use aries.Core.Types.{RuntimePlacement}
use aries.Session.Stop.{Session}

-- LaunchSpec, in the fields that the service reads; its request for a runtime, its configuration.
pub record LaunchSpec : Type 0 where
  pub runtime_backend : Bytes
  pub resource_metrics : Bytes
  pub backend : Bytes
  pub workdir : Bytes
  pub evidence_dir : Bytes
  pub control_address : Bytes
  pub service_port : ℤ
  pub labels : List (Bytes × Bytes)

pub record ClientConfig : Type 0 where
  pub command : Bytes
  pub source_path : Bytes

-- `has_runtime` and `addresses` say whether a runtime is given and is a ServiceRuntime.
pub record ServiceOptions : Type 0 where
  pub has_runtime : Bool
  pub addresses : Bool
  pub launch : LaunchSpec
  pub client : ClientConfig
  pub output_dir : Bytes
  pub bridge_type : Bytes
  pub run_id : Bytes
  pub placement : RuntimePlacement
  pub retain_raw_log : Bool

pub data ServicePhase : Type 0 where
  new starting running closing closed : ServicePhase

abbrev pub is_running : ServicePhase → Bool
is_running running = true
is_running _ = false

abbrev pub is_new : ServicePhase → Bool
is_new new = true
is_new _ = false

abbrev pub is_closed : ServicePhase → Bool
is_closed closed = true
is_closed _ = false

-- `connected` says whether `connection`, and with it `client`, is not nil.
pub record Service : Type 0 where
  pub options : ServiceOptions
  pub phase : ServicePhase
  pub runtime_id : Bytes
  pub runtime_name : Bytes
  pub connected : Bool
  pub sessions : List Session
  pub removed : Bool
  pub runtime_closed : Bool
  pub allocation_err : Option GoError
  pub shutdown_err : Option GoError
  pub transport : Bytes

-- `transportOf`; an unknown type has none.
unfoldable pub transport_of : Bytes → Bytes
transport_of bridge_type =
    if bytes_eq bridge_type (codes "hermes-ssh") || bytes_eq bridge_type (codes "openclaw-ssh")
    then codes "ssh"
    else if bytes_eq bridge_type (codes "hermes-grpc")
    then codes "grpc"
    else []

abbrev pub raw_log_name_of : Bytes → Bytes
raw_log_name_of transport = transport ++ codes "_raw.log"

abbrev pub is_blank : Bytes → Bool
is_blank s = bytes_eq s []

abbrev pub is_service_port : ℤ → Bool
is_service_port (pos n) = not (n == 0) && leb n 65535
is_service_port (negsuc n) = false

abbrev pub new_service_of : ServiceOptions → Service
new_service_of o = record {
  options = o;
  phase = new;
  runtime_id = [];
  runtime_name = [];
  connected = false;
  sessions = [];
  removed = false;
  runtime_closed = false;
  allocation_err = none;
  shutdown_err = none;
  transport = transport_of o.bridge_type;
}

-- `NewService`, but for the two paths that it makes absolute: `absolute` stands for `filepath.Abs`,
-- which depends on the working directory.
unfoldable pub absolute_paths :
    (Bytes → Result GoError Bytes) → ServiceOptions → Result GoError ServiceOptions
absolute_paths absolute o = elim (absolute o.output_dir) [
  | err e ↦ err e
  | ok dir ↦
      if is_blank o.client.source_path
      then ok (record o { output_dir = dir })
      else elim (absolute o.client.source_path) [
        | err e ↦ err e
        | ok source ↦ ok (record o {
          output_dir = dir;
          client = record { command = o.client.command; source_path = source };
        })
      ]
]

unfoldable pub check_options : ServiceOptions → Option GoError
check_options o =
    if not o.has_runtime || (is_blank o.output_dir || is_blank o.run_id)
    then some (message "bridge service requires runtime, run identity and output directory")
    else if not o.addresses
    then some (message "bridge runtime requires harness addressing")
    else if is_blank o.launch.runtime_backend
        || (is_blank o.launch.resource_metrics || is_blank o.launch.backend)
    then some (message "bridge requires explicit runtime metadata and execution backend")
    else if is_blank o.launch.workdir
        || (is_blank o.launch.evidence_dir
            || (is_blank o.launch.control_address || not (is_service_port o.launch.service_port)))
    then some (message "bridge requires explicit staging, evidence and control addresses")
    else if is_blank (transport_of o.bridge_type)
    then some (message "bridge native type has no known transport")
    else if (is_blank o.client.command && not (is_blank o.client.source_path))
        || (not (is_blank o.client.command) && is_blank o.client.source_path)
    then some (message "bridge client helper requires source and destination")
    else none

unfoldable pub new_service :
    (Bytes → Result GoError Bytes) → ServiceOptions → Result GoError Service
new_service absolute o = elim (check_options o) [
  | some e ↦ err e
  | none ↦ elim (absolute_paths absolute o) [ err e ↦ err e | ok paths ↦ ok (new_service_of paths) ]
]

-- The labels of the bridge's runtime: those of the launch without a task's, and the bridge's own.
unfoldable pub delete_label : Bytes → List (Bytes × Bytes) → List (Bytes × Bytes)
delete_label key [] = []
delete_label key ((k, v) ∷ labels) =
    let rest = delete_label key labels in if bytes_eq key k then rest else (k, v) ∷ rest

unfoldable pub bridge_labels : ServiceOptions → List (Bytes × Bytes)
bridge_labels o = insert (codes "aries.run") o.run_id (
    insert (codes "aries.kind") (codes "tool-bridge") (
      insert (codes "aries.component") (codes "bridge") (
        insert (codes "aries.managed") (codes "true") (
          delete_label (codes "aries.attempt")
            (delete_label (codes "aries.task") o.launch.labels)))))

-- The request for the bridge's runtime, in the fields that the service sets or reads.
pub record RuntimeRequest : Type 0 where
  pub name : Bytes
  pub placement : RuntimePlacement
  pub labels : List (Bytes × Bytes)
  pub workdir : Bytes
  pub service_port : ℤ

unfoldable pub runtime_request : Bytes → ServiceOptions → RuntimeRequest
runtime_request id o = record {
  name = codes "aries-bridge-" ++ id;
  placement = o.placement;
  labels = bridge_labels o;
  workdir = o.launch.workdir;
  service_port = o.launch.service_port;
}

-- What the child reads: config.json, with the three fields that the service sets.
pub record ChildConfig : Type 0 where
  pub launch : LaunchSpec
  pub run_id : Bytes
  pub bridge_type : Bytes
  pub retain_raw_log : Bool

abbrev pub child_config : ServiceOptions → ChildConfig
child_config o = record {
  launch = o.launch;
  run_id = o.run_id;
  bridge_type = o.bridge_type;
  retain_raw_log = o.retain_raw_log;
}
