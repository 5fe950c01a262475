-- ===== src/Control/Entry.antt =====
-- pkg/bridge/control/server.go: one entry, under its mutex: `releaseLocked` and the ends of the two
-- goroutines.
use aries.Base.{
  ℕ, suc, Bool, true, false, ◌||◌, not, List, [], Option, none, some, ltb, ◌==◌, if◌then◌else◌,
  Bytes,
}
use aries.Core.Errors.{GoError, message}
use aries.Control.State.{
  State, registering, ready, releasing, released, RegisterRequest, Endpoint, Artifact, Access,
  register, release, Entry,
}

abbrev pub fresh_access : Bytes → State → Access
fresh_access id state = record {
  sandbox_id = id;
  state = state;
  endpoint = none;
  artifacts = [];
  error = none;
  cleanup_error = none;
}

-- The entry that a registration makes, its goroutine started.
abbrev pub registering_entry : RegisterRequest → Entry
registering_entry r = record {
  request = some r;
  access = fresh_access r.sandbox_id registering;
  native = false;
  busy = true;
  operation = 1;
  cancel = true;
  running = some register;
  cancelled = false;
}

-- The entry that reserves an id released before it was seen.
abbrev pub reserved_entry : Bytes → Entry
reserved_entry id = record {
  request = none;
  access = fresh_access id released;
  native = false;
  busy = false;
  operation = 0;
  cancel = false;
  running = none;
  cancelled = false;
}

-- `releaseLocked` behind its first test, and the goroutine it starts.
unfoldable pub begin_release : Entry → Entry
begin_release e =
    let e' = record e {
      access = record e.access { state = releasing; endpoint = none };
      cancelled = e.cancelled || e.cancel;
    } in
    if e'.busy
    then e'
    else record e' { busy = true; operation = suc e'.operation; running = some release }

unfoldable pub release_locked : Entry → Entry
release_locked e = elim e.access.state [ released ↦ e | _ ↦ begin_release e ]

-- The error that a registration ends with.
unfoldable pub registration_error : Bool → Option Endpoint → Option GoError → Option GoError
registration_error false endpoint err = some (message "native sandbox factory returned nil")
registration_error true endpoint (some e) = some e
registration_error true none none = some (message "native bridge did not provide a ready endpoint")
registration_error true (some endpoint) none =
    if endpoint.port == 0 || ltb 65535 endpoint.port
    then some (message "native bridge did not provide a ready endpoint")
    else none

-- `if err != nil { ... }`
unfoldable pub record_failure : Option GoError → Entry → Entry
record_failure none e = e
record_failure (some err) e = record e {
  access = record e.access { error = some err; state = releasing };
}

-- The end of a registration: the endpoint counts only if nothing has released the sandbox since.
unfoldable pub publish : Option Endpoint → Entry → Entry
publish endpoint e = elim e.access.state [
  | registering ↦ record e { access = record e.access { endpoint = endpoint; state = ready } }
  | releasing ↦ release_locked e
  | _ ↦ e
]

unfoldable pub finish_register : Bool → Option Endpoint → Option GoError → Entry → Entry
finish_register native endpoint err e = publish endpoint (
    record_failure (registration_error native endpoint err)
      (record e { native = native; busy = false; running = none; cancelled = true }))

-- The end of a release, whose results are nil when there is no native sandbox.
unfoldable pub finish_release : List Artifact → Option GoError → Entry → Entry
finish_release artifacts err e =
    let e' = record e { busy = false; running = none } in
    elim (if e.native then err else none) [
      | some x ↦ record e' { access = record e.access { cleanup_error = some x } }
      | none ↦ record e' {
        access = record e.access {
          cleanup_error = none;
          state = released;
          artifacts = if e.native then artifacts else [];
        };
        native = false;
        cancel = false;
      }
    ]

-- Channel `ch` is closed: a later one is in use, or its operation has ended.
unfoldable pub closed : ℕ → Entry → Bool
closed ch e = ltb ch e.operation || not e.busy
