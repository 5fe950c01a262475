-- ===== src/Session/Start.antt =====
-- pkg/bridge/session.go: `Start`, which registers the sandbox and makes the endpoint, from its last
-- call to its first. `none` is that the fuel of the registration's loop ran out.
use aries.Base.{
  ℕ, Bool, true, ◌&&◌, ◌||◌, not, List, [], ◌∷◌, ◌++◌, Option, none, some, ltb, leb, ◌==◌,
  if◌then◌else◌, Bytes, codes, bytes_eq, contains_func, Result, ok, err,
}
use aries.Core.Errors.{GoError, message}
use aries.Control.State.{ready, Endpoint, Access}
use aries.Sandbox.Path.{clean}
use aries.Sandbox.Checks.{cut_colon, decimal}
use aries.Sandbox.Export.{BridgeTarget}
use aries.Target.Grant.{validate_target}
use aries.Session.Stop.{Session}
use aries.Session.Admission.{Client, admit_sandbox}

-- What the service gives a session: its options, its transport, and whether it runs. `client_source`
-- is empty if there is no helper.
pub record Terms : Type 0 where
  pub is_running : Bool
  pub backend : Bytes
  pub run_id : Bytes
  pub transport : Bytes
  pub retain_raw_log : Bool
  pub client_command : Bytes
  pub client_source : Bytes

-- The sandbox, the files, the control client and the runtime. `base` is `filepath.Base`, and
-- `stage_helper` is `stageClientHelper`, which copies a file.
pub record Opener (W : Type 0) : Type 0 where
  pub exports : Bool
  pub export_target : W → W × Result GoError BridgeTarget
  pub make_dir : Bytes → W → W × Option GoError
  pub record_session : W → W × Option GoError
  pub client : Client W
  pub task_address : ℕ → W → W × Result GoError Bytes
  pub base : Bytes → Bytes
  pub stage_helper : Bytes → Bytes → W → W × Option GoError

-- core.ToolEndpoint.
pub record SessionEndpoint : Type 0 where
  pub protocol : Bytes
  pub address : Bytes
  pub username : Bytes
  pub workdir : Bytes
  pub log_paths : List Bytes
  pub client_command : Bytes
  pub client_source_file : Bytes

-- The session with its own `started`, and what it is given at its making.
pub record Opening : Type 0 where
  pub started : Bool
  pub output_root : Bytes
  pub session : Session

abbrev pub Opened : Type 0 → Type 0
Opened W = Option (Opening × W × Result GoError SessionEndpoint)

-- `net.SplitHostPort`. The part before the last colon, and the part after it.
unfoldable pub last_colon : Bytes → Option (Bytes × Bytes)
last_colon [] = none
last_colon (c ∷ s) = elim (last_colon s) [
  | some (before, after) ↦ some (c ∷ before, after)
  | none ↦ if c == 58 then some ([], s) else none
]

abbrev pub is_bracket : ℕ → Bool
is_bracket c = c == 91 || c == 93

-- Behind the `[` of an address: the host, and the port behind `]:`.
unfoldable pub bracketed : Bytes → Option (Bytes × Bytes)
bracketed [] = none
bracketed (c ∷ s) =
    let rest = bracketed s in
    if c == 93
    then elim (cut_colon s) [
      | some ([], port) ↦
          if contains_func (λ d. is_bracket d || d == 58) port then none else some ([], port)
      | _ ↦ none
    ]
    else if c == 91
    then none
    else elim rest [ none ↦ none | some (host, port) ↦ some (c ∷ host, port) ]

unfoldable pub split_host_port : Bytes → Option (Bytes × Bytes)
split_host_port [] = none
split_host_port (c ∷ s) = if c == 91 then bracketed s else elim (last_colon (c ∷ s)) [
  | none ↦ none
  | some (host, port) ↦
      if contains_func (λ d. d == 58) host || contains_func is_bracket (c ∷ s)
      then none
      else some (host, port)
]

-- `strconv.Atoi` with the test for a port: a minus sign leaves nothing above zero.
unfoldable pub port_digits : Bytes → Option ℕ
port_digits [] = none
port_digits (c ∷ s) = elim (decimal 0 (c ∷ s)) [
  | none ↦ none
  | some n ↦ if leb 1 n && leb n 65535 then some n else none
]

unfoldable pub port_number : Bytes → Option ℕ
port_number [] = none
port_number (c ∷ s) = if c == 43 then port_digits s else port_digits (c ∷ s)

unfoldable pub valid_address : Bytes → Option GoError
valid_address address = elim (split_host_port address) [
  | none ↦ some (message "invalid resolved native endpoint")
  | some (host, port) ↦
      if bytes_eq host []
      then some (message "invalid resolved native endpoint")
      else elim (port_number port) [
        | none ↦ some (message "invalid resolved native endpoint port")
        | some _ ↦ none
      ]
]

abbrev pub local_dir : Opening → BridgeTarget → Bytes
local_dir o d = clean (o.output_root ++ 47 ∷ (d.task_id ++ 47 ∷ codes "bridge"))

abbrev pub in_dir : Bytes → Bytes → Bytes
in_dir dir name = clean (dir ++ 47 ∷ name)

unfoldable pub make_endpoint : Terms → Opening → BridgeTarget → Bytes → Bytes → SessionEndpoint
make_endpoint t o d address user = record {
  protocol = t.transport;
  address = address;
  username = user;
  workdir = d.workdir;
  log_paths =
      in_dir (local_dir o d) (codes "tool-calls.jsonl")
      ∷ (if t.retain_raw_log
          then in_dir (local_dir o d) (t.transport ++ codes "_raw.log") ∷ []
          else []);
  client_command = [];
  client_source_file = [];
}

-- The endpoint that the access holds, if it is ready and the service's own kind.
unfoldable pub native_endpoint : Terms → Access → Result GoError Endpoint
native_endpoint t a = elim a.state [
  | ready ↦ elim a.endpoint [
    | none ↦ err (message "bridge sandbox registration failed")
    | some native ↦
        if not (bytes_eq native.transport t.transport && bytes_eq native.user (codes "aries"))
          || (native.port == 0 || ltb 65535 native.port)
        then err (message "invalid native bridge endpoint")
        else ok native
  ]
  | _ ↦ err (message "bridge sandbox registration failed")
]

abbrev pub expose : Opening → Opening
expose o = record o { session = record o.session { exposed = true } }

abbrev pub hold_registered : Bytes → Opening → Opening
hold_registered id o = record o {
  session = record o.session { registered = true; sandbox_id = id };
}

abbrev pub hold_helper : Opening → Opening
hold_helper o = record o { session = record o.session { helper = true } }

module _ {W : Type 0} (opener : Opener W) (t : Terms) where
  unfoldable pub add_helper : BridgeTarget → SessionEndpoint → Opening → W → Opened W
  add_helper d endpoint o w =
      let file = in_dir (local_dir o d) (opener.base t.client_command) in
      let (w1, unstaged) = opener.stage_helper t.client_source file w in
      let helped = record endpoint {
        client_command = t.client_command;
        client_source_file = file;
      } in
      if bytes_eq t.client_source [] then some (expose o, w, ok endpoint) else elim unstaged [
        | some e ↦ some (hold_helper o, w1, err e)
        | none ↦ some (expose (hold_helper o), w1, ok helped)
      ]

  abbrev pub addressed : BridgeTarget → Bytes → Result GoError Bytes → Opening → W → Opened W
  addressed d user (err e) o w = some (o, w, err e)
  addressed d user (ok address) o w = elim (valid_address address) [
    | some e ↦ some (o, w, err e)
    | none ↦ add_helper d (make_endpoint t o d address user) o w
  ]

  abbrev pub resolve_address : BridgeTarget → Result GoError Endpoint → Opening → W → Opened W
  resolve_address d (err e) o w = some (o, w, err e)
  resolve_address d (ok native) o w =
      let (w1, address) = opener.task_address native.port w in addressed d native.user address o w1

  abbrev pub registered_with :
      BridgeTarget → Option (W × Result GoError Access) → Opening → Opened W
  registered_with d none o = none
  registered_with d (some (w, err e)) o = some (o, w, err e)
  registered_with d (some (w, ok a)) o = resolve_address d (native_endpoint t a) o w

  -- The ownership is kept before the call, whose answer may be lost. The descriptor's id is kept with
  -- it: nothing reads it before.
  unfoldable pub register_target : ℕ → BridgeTarget → Opening → W → Opened W
  register_target fuel d o w =
      registered_with d (admit_sandbox opener.client fuel d.sandbox_id w)
        (hold_registered d.sandbox_id o)

  unfoldable pub prepare_local : ℕ → BridgeTarget → Opening → W → Opened W
  prepare_local fuel d o w =
      let (w1, no_dir) = opener.make_dir (local_dir o d) w in
      let (w2, unrecorded) = opener.record_session w1 in
      let next = register_target fuel d o w2 in
      elim no_dir [
        | some e ↦ some (o, w1, err e)
        | none ↦ elim unrecorded [ some e ↦ some (o, w2, err e) | none ↦ next ]
      ]

  unfoldable pub check_target : ℕ → BridgeTarget → Opening → W → Opened W
  check_target fuel d o w =
      let next = prepare_local fuel d o w in
      elim (validate_target d) [
        | some e ↦ some (o, w, err e)
        | none ↦
            if bytes_eq d.backend t.backend && bytes_eq d.run_id t.run_id
            then next
            else some (o, w, err (message "sandbox backend or run does not match bridge service"))
      ]

  abbrev pub with_target : ℕ → Result GoError BridgeTarget → Opening → W → Opened W
  with_target fuel (err e) o w = some (o, w, err e)
  with_target fuel (ok d) o w = check_target fuel d o w

  unfoldable pub session_start : ℕ → Opening → W → Opened W
  session_start fuel o w =
      let begun = record o { started = true } in
      let (w1, target) = opener.export_target w in
      let next = with_target fuel target begun w1 in
      if o.started || o.session.stopped
      then some (o, w, err (message "bridge session cannot be reused"))
      else if not t.is_running
      then some (begun, w, err (message "bridge service is not running"))
      else if opener.exports
      then next
      else some (begun, w, err (message "sandbox cannot export a bridge target"))
