-- ===== src/Session/Registration.antt =====
-- The theorems on a session's registration and Start at a concrete client, and tests.
use aries.Base.{
  ℕ, Bool, zero, suc, ◌+◌, [], Option, none, some, ◌==◌, if◌then◌else◌, codes, bytes_eq, Result, ok,
  err, ◌≡◌, ◌<◌, refl, arith, false, true, ◌&&◌, contains_func, cut_prefix,
}
use aries.Core.Errors.{GoError, message, Sentinel, sentinel}
use aries.Control.State.{ready, Access}
use aries.Session.Admission.{
  StatusCode, not_found, unavailable, Client, validate_access, judge_result, judge_turn, ask_again,
  register_loop, admit_sandbox,
}
use aries.Session.Admitted.{Watch, IsOwn, admit_sandbox_returns}
use aries.Sandbox.Export.{BridgeTarget}
use aries.Session.Stop.{Session}
use aries.Session.Start.{
  Terms, Opener, SessionEndpoint, Opening, prepare_local, register_target, native_endpoint,
  valid_address, split_host_port, last_colon, port_number, port_digits, make_endpoint, add_helper,
}
use aries.Sandbox.Checks.{decimal}
use aries.Sandbox.Path.{clean, resolve, elements, resolve_element, rooted, drop_last}

record World : Type 0 where
  sent : ℕ
  missing : ℕ
  left : ℕ

abbrev access : Access
access = record {
  sandbox_id = codes "task-1";
  state = ready;
  endpoint = some (record { port = 2222; user = codes "aries"; transport = codes "ssh" });
  artifacts = [];
  error = none;
  cleanup_error = none;
}

abbrev code_of : GoError → StatusCode
code_of (sentinel s) = not_found
code_of _ = unavailable

abbrev poll : ℕ → World → World × Option GoError
poll zero w = (w, some (message "deadline"))
poll (suc n) w = (record w { left = n }, none)

-- The first registration is lost on its way there.
abbrev client : Client World
client = record {
  register_sandbox = λ w. (
    record w { sent = suc w.sent },
    if w.sent == 0 then err (message "lost") else ok (some access),
  );
  get_sandbox = λ w. (record w { missing = suc w.missing }, err (sentinel Sentinel.not_found));
  code = code_of;
  context_err = λ w. none;
  wait_poll = λ w. poll w.left w;
}

poll_takes : (n : ℕ) (w : World) → (poll n w).1 ≡ none → (poll n w).0.left < n
poll_takes zero w h = cc
poll_takes (suc n) w h = ground arith

poll_keeps_sent : (n : ℕ) (w : World) → (poll n w).0.sent ≡ w.sent
poll_keeps_sent zero w = refl
poll_keeps_sent (suc n) w = refl

poll_keeps_missing : (n : ℕ) (w : World) → (poll n w).0.missing ≡ w.missing
poll_keeps_missing zero w = refl
poll_keeps_missing (suc n) w = refl

client-Watch : Watch client (λ w. w.sent) (λ w. w.missing) (λ w. w.left)
client-Watch = record {
  register_sent = λ w. refl;
  register_missing = λ w. refl;
  register_left = λ w. ground arith;
  get_sent = λ w. refl;
  get_missing = λ w. ground arith;
  get_left = λ w. ground arith;
  poll_sent = λ w. poll_keeps_sent w.left w;
  poll_missing = λ w. poll_keeps_missing w.left w;
  poll_left = λ w h. poll_takes w.left w h;
}

abbrev begin_world : World
begin_world = record { sent = 0; missing = 0; left = 5 }

admit_sandbox_returns_example :
    (w' : World) × (answer : Result GoError Access) × (admit_sandbox client 6
        (codes "task-1")
        begin_world
      ≡ some (w', answer))
    × IsOwn (codes "task-1") answer
    × (w'.sent + 0 ≡ 1 + w'.missing)
admit_sandbox_returns_example =
    admit_sandbox_returns client (λ w. w.sent) (λ w. w.missing) (λ w. w.left) client-Watch
      (codes "task-1") begin_world

-- The lost registration is looked up, not found, and submitted again.
second_registration :
    admit_sandbox client 6 (codes "task-1") begin_world
    ≡ some (record { sent = 2; missing = 1; left = 4 }, ok access)
unfolding admit_sandbox register_loop judge_turn judge_result ask_again validate_access bytes_eq
second_registration = refl

abbrev descriptor : BridgeTarget
descriptor = record {
  run_id = codes "run";
  task_id = codes "task";
  sandbox_id = codes "task-1";
  backend = codes "docker";
  runtime_id = codes "00ff";
  workdir = codes "/work";
  exec_user = codes "root";
}

abbrev opener : Opener World
opener = record {
  exports = true;
  export_target = λ w. (w, ok descriptor);
  make_dir = λ dir w. (w, none);
  record_session = λ w. (w, none);
  client = client;
  task_address = λ port w. (w, ok (codes "10.0.0.2:2222"));
  base = λ s. codes "aries-ssh";
  stage_helper = λ source file w. (w, none);
}

abbrev terms : Terms
terms = record {
  is_running = true;
  backend = codes "docker";
  run_id = codes "run";
  transport = codes "ssh";
  retain_raw_log = false;
  client_command = codes "aries-ssh";
  client_source = codes "/bin/aries-ssh";
}

abbrev fresh_session : Session
fresh_session = record {
  stopped = false;
  registered = false;
  exposed = false;
  is_released = false;
  collected = false;
  manifest = [];
  evidence_err = none;
  sandbox_id = [];
  raw_log_name = codes "ssh_raw.log";
  retain_raw_log = false;
  helper = false;
}

abbrev opening : Opening
opening = record { started = false; output_root = codes "/out"; session = fresh_session }

-- The session is given its endpoint.
started_with : Option (Opening × World × Result GoError SessionEndpoint) → Bool
started_with (some (o, w, ok endpoint)) =
    o.session.exposed && bytes_eq endpoint.address (codes "10.0.0.2:2222")
started_with _ = false

start_is_exposed : started_with (prepare_local opener terms 6 descriptor opening begin_world) ≡ true
unfolding started_with prepare_local register_target native_endpoint valid_address split_host_port
    last_colon port_number port_digits make_endpoint add_helper admit_sandbox register_loop
    judge_turn judge_result ask_again validate_access bytes_eq contains_func decimal cut_prefix
    drop_last clean resolve elements resolve_element rooted
start_is_exposed = refl
