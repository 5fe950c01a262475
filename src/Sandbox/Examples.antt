-- ===== src/Sandbox/Examples.antt =====
-- The theorems on sandboxes at a concrete deployment, and tests.
use aries.Base.{
  not, Bytes, pos, Bool, true, false, ◌&&◌, map, [], ◌∷◌, ◌++◌, Option, none, some, codes, bytes_eq,
  has_prefix, cut_prefix, one_of, contains_func, ok, ◌≡◌, ◌↔◌, ◌⊎◌, refl, arith,
}
use aries.Core.Errors.{GoError, message, join}
use aries.Core.RuntimeName.{
  to_lower, ends_in_hyphen, trim_hyphen, write_rune, task_hint, with_hint, runtime_name, IsLabel,
  runtime_name-IsLabel,
}
use aries.Core.Types.{HarnessConnectivity}
use aries.Image.{
  validate_pull_image, validate_digest, validate_tag_only, check_tagged, trim_space, trim_by,
  first_space, last_space,
}
use aries.Sandbox.Path.{
  elements, resolve_element, resolve, rooted, clean, clean_container_workdir, clean_container_path,
}
use aries.Sandbox.Canonical.{Canonical, clean_container_workdir_iff}
use aries.Sandbox.Checks.{
  is_identity, validate_identity, cut_colon, decimal, parse_uint32, user_ids, validate_exec_user,
  Command, validate_limits, validate_workdir, validate_command, with_defaults, prepare_command,
}
use aries.Sandbox.Users.{TwoIds, validate_exec_user_iff, prepare_command_again}
use aries.Sandbox.Request.{
  Request, validate_request, validate_environment, validate_resources, valid_cpu, valid_sizes,
  sandbox_component, deployment_request,
}
use aries.Sandbox.State.{Host, Sandbox, Manager}
use aries.Sandbox.Stop.{rollback_start, stop_once, stop_container, stop_network}
use aries.Sandbox.Start.{
  manager_start, start_named, new_sandbox, artifact_directory, attach, allocate, created,
  with_container, launch, check_running, recheck, settle, image_workdir, cut_newline,
}
use aries.Sandbox.Held.{Laws}
use aries.Sandbox.Rollback.{IsAccounted}
use aries.Sandbox.Leaks.{manager_start-IsAccounted}
use aries.Sandbox.Export.{BridgeTarget, export_bridge_target}
use aries.Target.Grant.{bad_runtime_id, is_backend, validate_target}
use aries.Target.Exported.{manager_start-validate_target}

clean_container_workdir_iff_example :
    (clean_container_workdir (codes "/app/src") ≡ ok (codes "/app/src"))
    ↔ ((codes "/app/src" ≡ codes "/app/src") × Canonical (codes "/app/src"))
clean_container_workdir_iff_example =
    clean_container_workdir_iff (codes "/app/src") (codes "/app/src")

validate_exec_user_iff_example :
    (validate_exec_user (codes "1000:0") ≡ none) ↔ ((codes "1000:0" ≡ []) ⊎ TwoIds (codes "1000:0"))
validate_exec_user_iff_example = validate_exec_user_iff (codes "1000:0")

accepted_user_id : validate_exec_user (codes "4294967295:0") ≡ none
unfolding validate_exec_user user_ids cut_colon parse_uint32 decimal
accepted_user_id = refl

too_large :
    validate_exec_user (codes "4294967296:0")
    ≡ some (message "exec user must be a numeric UID:GID pair")
unfolding validate_exec_user user_ids cut_colon parse_uint32 decimal
too_large = refl

runtime_name-IsLabel_example :
    IsLabel (runtime_name (codes "sandbox") (codes "Fix_Bug #7") (codes "00ff"))
runtime_name-IsLabel_example =
    runtime_name-IsLabel (codes "sandbox") (codes "Fix_Bug #7") (codes "00ff")
      (unfold contains_func in refl) (unfold contains_func in refl) (unfold ends_in_hyphen in refl)
      (ground arith)

readable :
    runtime_name (codes "sandbox") (codes "Fix_Bug #7") (codes "00ff")
    ≡ codes "aries-sandbox-fix-bug-7-00ff"
unfolding runtime_name with_hint trim_hyphen task_hint write_rune ends_in_hyphen to_lower
readable = refl

abbrev list_files : Command
list_files = record {
  path = codes "/bin/ls";
  args = [];
  dir = [];
  env = [];
  timeout = pos 0;
  user = [];
  output_limit_bytes = pos 0;
}

prepared_list_files :
    prepare_command list_files (codes "/app") (codes "7:7")
    ≡ ok (record list_files { dir = codes "/app"; user = codes "7:7" })
unfolding prepare_command with_defaults validate_command validate_limits validate_workdir
    validate_exec_user user_ids cut_colon parse_uint32 decimal clean_container_path
    clean_container_workdir clean resolve resolve_element rooted elements contains_func has_prefix
    cut_prefix bytes_eq
prepared_list_files = refl

abbrev prepared : Command
prepared = record list_files { dir = codes "/app"; user = codes "7:7" }

prepared_again :
    (validate_command prepared ≡ none)
    × (prepared ≡ record list_files { dir = codes "/app"; user = codes "7:7" })
    × (prepare_command prepared (codes "/app") (codes "7:7") ≡ ok prepared)
prepared_again =
    prepare_command_again list_files prepared (codes "/app") (codes "7:7") prepared_list_files

-- What is there of the sandbox.
record World : Type 0 where
  container : Bool
  attachment : Bool

abbrev nothing : World
nothing = record { container = false; attachment = false }

abbrev everything : World
everything = record { container = true; attachment = true }

abbrev on_network : HarnessConnectivity
on_network = record {
  placement = record { attachment_id = "n" };
  search_url = "";
  mcp_servers = [];
}

-- A deployment that starts a container or fails to, and that removes it or fails to.
abbrev host_of : Option GoError → Option GoError → Host World
host_of unstarted unremoved = record {
  parse_image = λ image. ok (record { canonical = none; tag = some (codes "1") });
  new_id = λ w. (w, ok (codes "00ff"));
  make_dir = λ dir w. (w, none);
  timezone = λ w. [];
  new_environment = λ w. (w, true);
  start_environment = λ r name w. (record w { attachment = true }, ok on_network);
  validate_environment = λ w. (w, none);
  stop_environment = λ w. (record w { attachment = false }, none);
  create = λ r w. (record w { container = true }, codes "c1", none);
  validate = λ id r w. (w, none);
  start = λ id w. (w, unstarted);
  running = λ id w. (w, true, none);
  exec = λ id c w. (w, ok (0, codes "/app" ++ 10 ∷ []));
  open_log = λ dir name w. (w, none);
  logs_stream = λ id w. (w, none);
  stop = λ id w. (
    elim unremoved [
      | none ↦ record w { container = w.container && not (bytes_eq (codes "c1") id) }
      | some e ↦ w
    ],
    unremoved,
  );
  close = λ w. (w, none);
}

-- The one container that there may be.
abbrev c1_there : Bytes → World → Bool
c1_there c w = w.container && bytes_eq (codes "c1") c

c1_only :
    (c : Bytes)
    → (bytes_eq (codes "c1") c && not (bytes_eq (codes "c1") [])) ≡ false
    → bytes_eq (codes "c1") c ≡ false
c1_only c other = ground (arith, other, named)
  where
    named : bytes_eq (codes "c1") [] ≡ false
    named = unfold bytes_eq in refl

host_laws :
    (unstarted unremoved : Option GoError)
    → Laws (host_of unstarted unremoved) c1_there (λ w. w.attachment)
host_laws unstarted none = record {
  new_id_quiet = λ c w. (refl, refl);
  make_dir_quiet = λ c dir w. (refl, refl);
  new_environment_quiet = λ c w. (refl, refl);
  start_environment_quiet = λ c r name w. refl;
  validate_environment_quiet = λ c w. refl;
  create_confirms = λ c r w absent other confirmed. c1_only c other;
  validate_makes_none = λ c id r w absent. absent;
  start_makes_none = λ c id w absent. absent;
  running_makes_none = λ c id w absent. absent;
  exec_makes_none = λ c id command w absent. absent;
  open_log_quiet = λ c dir name w. (refl, refl);
  logs_stream_quiet = λ c id w. (refl, refl);
  close_makes_none = λ c w absent. absent;
  stop_quiet = λ id w. refl;
  stop_environment_quiet = λ c w. refl;
  stop_environment_confirms = λ w h. refl;
  stop_makes_none = λ c id w absent. ground (arith, absent);
  stop_confirms = λ id w h. ground arith;
}
host_laws unstarted (some e) = record {
  new_id_quiet = λ c w. (refl, refl);
  make_dir_quiet = λ c dir w. (refl, refl);
  new_environment_quiet = λ c w. (refl, refl);
  start_environment_quiet = λ c r name w. refl;
  validate_environment_quiet = λ c w. refl;
  create_confirms = λ c r w absent other confirmed. c1_only c other;
  validate_makes_none = λ c id r w absent. absent;
  start_makes_none = λ c id w absent. absent;
  running_makes_none = λ c id w absent. absent;
  exec_makes_none = λ c id command w absent. absent;
  open_log_quiet = λ c dir name w. (refl, refl);
  logs_stream_quiet = λ c id w. (refl, refl);
  close_makes_none = λ c w absent. absent;
  stop_quiet = λ id w. refl;
  stop_environment_quiet = λ c w. refl;
  stop_environment_confirms = λ w h. refl;
  stop_makes_none = λ c id w absent. absent;
  stop_confirms = λ id w h. cc;
}

abbrev request : Request
request = record {
  run_id = codes "run-1";
  task_id = codes "task-1";
  purpose = [];
  wanted = record {
    image = codes "app:1";
    workdir = [];
    cpu = 0;
    memory_mb = pos 512;
    storage_mb = pos 0;
    gpus = pos 0;
    env = [];
    search_port = pos 0;
    mcp = [];
    exec_user = [];
  };
}

abbrev manager : Manager
manager = record { id = 1; output_dir = codes "/out"; pending = []; closed = none }

-- A container that does not start and cannot be removed.
abbrev stuck : Host World
stuck = host_of (some (message "start")) (some (message "remove"))

manager_start-IsAccounted_example :
    IsAccounted stuck c1_there
      (λ w. w.attachment)
      (host_laws (some (message "start")) (some (message "remove")))
      (codes "c1")
      manager
      (manager_start stuck request manager nothing)
manager_start-IsAccounted_example =
    manager_start-IsAccounted stuck c1_there (λ w. w.attachment)
      (host_laws (some (message "start")) (some (message "remove"))) (codes "c1") request manager
      nothing refl refl

abbrev sandbox : Sandbox
sandbox = record {
  owner = 1;
  container_id = codes "c1";
  container_name = codes "aries-sandbox-task-1-00ff";
  workdir = codes "/app";
  exec_user = [];
  artifact_dir = codes "/out/task-1/sandbox";
  run_id = codes "run-1";
  task_id = codes "task-1";
  container_owned = true;
  environment_owned = true;
  stopped = false;
  stopping = false;
  stop_err = none;
}

abbrev smooth : Host World
smooth = host_of none none

c1_held : (true && not (true && bytes_eq (codes "c1") (codes "c1"))) ≡ false
c1_held = unfold bytes_eq in refl

-- `Start` to its end, with the working directory that `pwd` prints.
started : manager_start smooth request manager nothing ≡ (manager, everything, ok sandbox)
unfolding validate_pull_image validate_digest validate_tag_only check_tagged trim_space trim_by
    first_space last_space manager_start validate_request validate_identity is_identity
    validate_environment validate_resources valid_cpu valid_sizes validate_workdir
    validate_exec_user start_named new_sandbox artifact_directory sandbox_component runtime_name
    with_hint trim_hyphen task_hint write_rune ends_in_hyphen to_lower attach allocate
    deployment_request created with_container launch check_running recheck settle image_workdir
    cut_newline clean_container_workdir clean resolve resolve_element rooted elements contains_func
    has_prefix cut_prefix bytes_eq
started = refl

-- A container that neither starts nor goes: the sandbox is pending, and still owns both parts.
left_pending :
    map
      (λ s. s.container_owned && s.environment_owned)
      (manager_start stuck request manager nothing).0.pending
    ≡ true ∷ []
unfolding validate_pull_image validate_digest validate_tag_only check_tagged trim_space trim_by
    first_space last_space manager_start validate_request validate_identity is_identity
    validate_environment validate_resources valid_cpu valid_sizes validate_workdir
    validate_exec_user start_named new_sandbox artifact_directory sandbox_component runtime_name
    with_hint trim_hyphen task_hint write_rune ends_in_hyphen to_lower attach allocate
    deployment_request created with_container launch rollback_start stop_once stop_container
    stop_network join clean resolve resolve_element rooted elements contains_func has_prefix
    cut_prefix bytes_eq
left_pending = refl

manager_start-validate_target_example :
    (d : BridgeTarget) × (export_bridge_target (some (codes "docker")) sandbox ≡ ok d)
    × (validate_target d ≡ none)
manager_start-validate_target_example =
    manager_start-validate_target smooth request (codes "00ff") (codes "docker") manager manager
      nothing everything sandbox refl (unfold contains_func in refl) (ground arith)
      (unfold bad_runtime_id contains_func one_of bytes_eq in refl)
      (unfold is_backend contains_func in refl) started
