-- ===== src/Service/Examples.antt =====
-- The theorems on the bridge service at a concrete runtime, and tests.
use aries.Base.{
  ℕ, zero, suc, pos, Bool, true, false, [], ◌∷◌, Option, none, some, ltb, codes, bytes_eq, insert,
  ok, err, ◌≡◌, ◌<◌, refl, arith,
}
use aries.Core.Errors.{GoError, message, join}
use aries.Control.State.{released}
use aries.Session.Stop.{
  Host, Session, stop, release_session, release_answered, collect_evidence, remove_helper,
}
use aries.Service.State.{
  ServiceOptions, running, closed, Service, new_service_of, new_service, check_options,
  absolute_paths, transport_of, delete_label, bridge_labels, runtime_request,
}
use aries.Service.Start.{
  Runtime, service_start, begin_start, create_runtime, keep_identity, record_created,
  launch_runtime, await_control, readiness_turn, check_health, ask_running, session_of, new_session,
}
use aries.Service.Stop.{
  stop_sessions, close_runtime, close_control, remove_runtime, after_sessions, service_stop,
}
use aries.Service.Ready.{Clock}
use aries.Service.Kept.{Promises, StartsIn, service_start-StartsIn}

record World : Type 0 where
  exists : Bool
  left : ℕ

abbrev options : ServiceOptions
options = record {
  has_runtime = true;
  addresses = true;
  launch = record {
    runtime_backend = codes "docker";
    resource_metrics = codes "docker";
    backend = codes "docker";
    workdir = codes "/etc/aries";
    evidence_dir = codes "/evidence";
    control_address = codes "0.0.0.0:7";
    service_port = pos 7;
    labels = (codes "aries.task", codes "task-1") ∷ [];
  };
  client = record { command = []; source_path = [] };
  output_dir = codes "/out";
  bridge_type = codes "hermes-ssh";
  run_id = codes "run-1";
  placement = record { attachment_id = "n" };
  retain_raw_log = false;
}

abbrev poll : ℕ → World → World × Option GoError
poll zero w = (w, some (message "deadline"))
poll (suc n) w = (record w { left = n }, none)

-- A runtime whose control service answers after two polls.
abbrev runtime : Runtime World
runtime = record {
  make_dir = λ dir w. (w, none);
  nonce = λ w. (w, ok (codes "00ff"));
  create = λ r w. (record w { exists = true }, codes "b1", none);
  record_runtime = λ s w. (w, none);
  encode = λ c. ok (codes "{}");
  archive = λ data'. ok data';
  upload_archive = λ id dir files w. (w, none);
  validate = λ id r w. (w, none);
  start = λ id w. (w, none);
  address = λ id port w. (w, ok (codes "127.0.0.1:7"));
  new_client = λ a w. (w, none);
  serving = λ w. (w, ltb w.left 4);
  close_connection = λ w. (w, none);
  is_live = λ id w. (w, true, none);
  wait_poll = λ w. poll w.left w;
  stop = λ id w. (record w { exists = false }, none);
  close = λ w. (w, none);
}

poll_takes : (n : ℕ) (w : World) → (poll n w).1 ≡ none → (poll n w).0.left < n
poll_takes zero w h = cc
poll_takes (suc n) w h = ground arith

runtime_clock : Clock runtime (λ w. w.left)
runtime_clock = record {
  poll_takes = λ w h. poll_takes w.left w h;
  address_left = λ id port w. ground arith;
  new_client_left = λ a w. ground arith;
  serving_left = λ w. ground arith;
  close_connection_left = λ w. ground arith;
  is_live_left = λ id w. ground arith;
  upload_left = λ id dir files w. ground arith;
  validate_left = λ id r w. ground arith;
  start_left = λ id w. ground arith;
  record_left = λ s w. ground arith;
  create_left = λ r w. ground arith;
  make_dir_left = λ dir w. ground arith;
  nonce_left = λ w. ground arith;
}

runtime_promises : Promises runtime (λ w. w.exists)
runtime_promises = record {
  make_dir_quiet = λ dir w. refl;
  nonce_quiet = λ w. refl;
  record_quiet = λ s w. refl;
  create_confirms = λ r w absent nameless failed confirmed. cc;
}

abbrev before : World
before = record { exists = false; left = 5 }

service_start-StartsIn_example :
    StartsIn runtime
      (λ w. w.exists)
      (λ w. w.left)
      runtime_promises
      runtime_clock
      (service_start runtime 6 (new_service_of options) before)
service_start-StartsIn_example =
    service_start-StartsIn runtime (λ w. w.exists) (λ w. w.left) runtime_promises runtime_clock
      options before refl

abbrev started_service : Service
started_service = record (new_service_of options) {
  phase = running;
  runtime_id = codes "b1";
  runtime_name = codes "aries-bridge-00ff";
  connected = true;
}

runs_after_two_polls :
    service_start runtime 6 (new_service_of options) before
    ≡ some (started_service, record { exists = true; left = 3 }, none)
unfolding service_start begin_start create_runtime keep_identity record_created launch_runtime
    await_control readiness_turn check_health ask_running runtime_request bridge_labels transport_of
    bytes_eq
runs_after_two_polls = refl

-- The control service releases every sandbox, without evidence.
abbrev host : Host World
host = record {
  release_sandbox = λ w. (
    w,
    ok (record {
      sandbox_id = codes "task-1";
      state = released;
      endpoint = none;
      artifacts = [];
      error = none;
      cleanup_error = none;
    }),
  );
  running = λ w. (w, true, none);
  download_archive = λ name w. (w, err (message "no evidence"));
  sha256_hex = λ content. content;
  write_file = λ name content w. (w, none);
  remove = λ w. (w, none);
  is_not_exist = λ e. false;
}

abbrev registered_session : Session
registered_session = record (session_of started_service) {
  registered = true;
  sandbox_id = codes "task-1";
}

abbrev with_session : Service
with_session = record started_service { sessions = registered_session ∷ [] }

-- The session's Stop without evidence of a session that was never exposed.
all_down : service_stop runtime (λ s. host) with_session (record { exists = true; left = 3 }) ≡ (
  record with_session {
    phase = closed;
    sessions =
        record registered_session { stopped = true; is_released = true; collected = true } ∷ [];
    removed = true;
    connected = false;
    runtime_closed = true;
  },
  record { exists = false; left = 3 },
  none,
)
unfolding service_stop stop_sessions remove_runtime close_control close_runtime after_sessions stop
    release_session release_answered collect_evidence remove_helper join bytes_eq
all_down = refl

no_task_label :
    bridge_labels options
    ≡ (codes "aries.managed", codes "true")
      ∷ (codes "aries.component", codes "bridge")
      ∷ (codes "aries.kind", codes "tool-bridge")
      ∷ (codes "aries.run", codes "run-1")
      ∷ []
unfolding bridge_labels delete_label insert bytes_eq
no_task_label = refl

accepted_options : new_service (λ path. ok path) options ≡ ok (new_service_of options)
unfolding new_service check_options absolute_paths transport_of bytes_eq
accepted_options = refl

admitted :
    new_session (ok []) started_service
    ≡ ok (record started_service { sessions = session_of started_service ∷ [] })
unfolding new_session
admitted = refl
