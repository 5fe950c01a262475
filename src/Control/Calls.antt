-- ===== src/Control/Calls.antt =====
-- pkg/bridge/control/server.go: the calls of the service, as steps of its state. A call that waits
-- returns the channel, and is asked again by `await` or `await_release` when that is closed.
use aries.Base.{
  between, ℕ, Bool, true, false, ◌&&◌, ◌||◌, not, List, [], ◌∷◌, Option, none, some, leb,
  if◌then◌else◌, Bytes, codes, bytes_eq, contains_func, one_of, length, lookup, insert, keys,
  Result, ok, err,
}
use aries.Core.Errors.{GoError, join, message}
use aries.Control.State.{
  released, Target, RegisterRequest, Access, Entry, Server, Code, invalid_argument, already_exists,
  failed_precondition, not_found, Reply, refused, answer, waiting,
}
use aries.Control.Entry.{registering_entry, reserved_entry, release_locked, closed}

unfoldable pub is_alphanumeric : ℕ → Bool
is_alphanumeric c = between b'a' b'z' c || between b'A' b'Z' c || between b'0' b'9' c

-- A byte that may not stand behind the first one.
unfoldable pub not_in_identifier : ℕ → Bool
not_in_identifier c = not (is_alphanumeric c || one_of (codes "_.-") c)

-- `^[a-zA-Z0-9][a-zA-Z0-9_.-]{0,255}$`
unfoldable pub is_identifier : Bytes → Bool
is_identifier [] = false
is_identifier (c ∷ s) =
    is_alphanumeric c && (leb (length s) 255 && not (contains_func not_in_identifier s))

-- The getters of a nil-able message.
abbrev pub runtime_id : Option Target → Bytes
runtime_id none = []
runtime_id (some t) = t.runtime_id

abbrev pub task_id : Option Bytes → Bytes
task_id none = []
task_id (some t) = t

abbrev pub is_empty : Bytes → Bool
is_empty [] = true
is_empty (c ∷ s) = false

-- The test that `RegisterSandbox` starts with.
unfoldable pub is_valid_request : RegisterRequest → Bool
is_valid_request r = not (
    not (is_identifier r.sandbox_id)
    || (is_empty (runtime_id r.target)
        || (contains_func (one_of (0 ∷ 13 ∷ 10 ∷ [])) (runtime_id r.target)
            || not (is_identifier (task_id r.metadata)))))

abbrev pub target_eq : Option Target → Option Target → Bool
target_eq none none = true
target_eq none (some t) = false
target_eq (some t) none = false
target_eq (some t) (some u) =
    bytes_eq t.runtime_id u.runtime_id
    && (bytes_eq t.workdir u.workdir && bytes_eq t.exec_user u.exec_user)

abbrev pub metadata_eq : Option Bytes → Option Bytes → Bool
metadata_eq none none = true
metadata_eq none (some t) = false
metadata_eq (some t) none = false
metadata_eq (some t) (some u) = bytes_eq t u

-- `proto.Equal` on two registration requests.
unfoldable pub request_eq : RegisterRequest → RegisterRequest → Bool
request_eq r q =
    bytes_eq r.sandbox_id q.sandbox_id
    && (target_eq r.target q.target && metadata_eq r.metadata q.metadata)

-- `RegisterSandbox` where the id has an entry.
unfoldable pub register_again : RegisterRequest → Entry → Reply
register_again r e = elim e.request [
  | none ↦ answer e.access
  | some q ↦ if request_eq q r then answer e.access else refused already_exists
]

-- `RegisterSandbox` where it has none: the entry is made and its goroutine started.
unfoldable pub register_new : RegisterRequest → Server → Server × Reply
register_new r s = if s.closing then (s, refused failed_precondition) else (
  record s {
    entries = insert r.sandbox_id (registering_entry r) s.entries;
    registered = r.sandbox_id ∷ s.registered;
  },
  waiting 1,
)

unfoldable pub register_sandbox : RegisterRequest → Server → Server × Reply
register_sandbox r s =
    if is_valid_request r
    then elim (lookup r.sandbox_id s.entries) [
      | some e ↦ (s, register_again r e)
      | none ↦ register_new r s
    ]
    else (s, refused invalid_argument)

unfoldable pub find : Bytes → Server → Result Code Entry
find id s =
    if is_identifier id
    then elim (lookup id s.entries) [ some e ↦ ok e | none ↦ err not_found ]
    else err invalid_argument

unfoldable pub get_sandbox : Bytes → Server → Reply
get_sandbox id s = elim (find id s) [ ok e ↦ answer e.access | err c ↦ refused c ]

-- `ReleaseSandbox` on the entry found.
unfoldable pub release_entry : Bytes → Entry → Server → Server × Reply
release_entry id e s = elim e.access.state [
  | released ↦ (s, answer e.access)
  | _ ↦
      let e' = release_locked e in
      (record s { entries = insert id e' s.entries }, waiting e'.operation)
]

unfoldable pub release_sandbox : Bytes → Server → Server × Reply
release_sandbox id s =
    if is_identifier id
    then elim (lookup id s.entries) [
      | some e ↦ release_entry id e s
      | none ↦ (
        record s { entries = insert id (reserved_entry id) s.entries },
        answer (reserved_entry id).access,
      )
    ]
    else (s, refused invalid_argument)

-- `wait`: the access, once the channel is closed.
unfoldable pub await : ℕ → Entry → Option Access
await ch e = if closed ch e then some e.access else none

-- One turn of the loop that ends `ReleaseSandbox`, on a channel that is closed.
unfoldable pub await_release : Entry → Reply
await_release e = if e.busy then waiting e.operation else answer e.access

-- The ends of the goroutines, at the server.
abbrev pub update : Bytes → (Entry → Entry) → Server → Server
update id f s = elim (lookup id s.entries) [
  | some e ↦ record s { entries = insert id (f e) s.entries }
  | none ↦ s
]

-- `Close` up to its calls of `ReleaseSandbox`: the ids that it calls them for.
unfoldable pub begin_close : Server → Server × List Bytes
begin_close s = (record s { closing = true }, keys s.entries)

-- What `Close` makes of one call's outcome.
unfoldable pub close_failure : Result GoError Access → Option GoError
close_failure (err e) = some e
close_failure (ok a) = elim a.state [
  | released ↦ none
  | _ ↦ elim a.cleanup_error [ none ↦ some (message "") | some e ↦ some e ]
]

abbrev pub close_failures : List (Result GoError Access) → List GoError
close_failures [] = []
close_failures (r ∷ rs) = elim (close_failure r) [
  | none ↦ close_failures rs
  | some e ↦ e ∷ close_failures rs
]

-- The error of `Close`.
unfoldable pub end_close : List (Result GoError Access) → Option GoError
end_close outcomes = join (close_failures outcomes)
