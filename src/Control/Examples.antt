-- ===== src/Control/Examples.antt =====
-- The theorems on the bridge control service at a concrete run, and tests of its calls.
use aries.Base.{
  true, false, [], ◌∷◌, map, Option, none, some, Bytes, codes, bytes_eq, contains_func, one_of,
  lookup, insert, ◌≡◌, ◌≢◌, ◌⊎◌, refl, Result, ok, err, ap, ◌≤◌, is_none,
}
use aries.Core.Errors.{GoError, message, join}
use aries.Control.State.{
  ready, released, releasing, RegisterRequest, Endpoint, Access, Entry, Server, Running, answer,
  waiting, refused, already_exists, not_found,
}
use aries.Control.Entry.{
  registering_entry, reserved_entry, begin_release, release_locked, registration_error,
  record_failure, publish, finish_register, finish_release, closed,
}
use aries.Control.Calls.{
  is_alphanumeric, not_in_identifier, is_identifier, is_valid_request, register_again, register_new,
  register_sandbox, find, get_sandbox, release_entry, release_sandbox, await, await_release,
  begin_close, close_failure, end_close,
}
use aries.Control.Steps.{
  new_server, Step, Later, Reachable, same, next, register_call, release_call, close_call,
}
use aries.Control.Valid.{Valid, is_ready_port}
use aries.Control.Reach.{Reachable-Valid}
use aries.Control.Onward.{Onward, Later-Onward}
use aries.Control.Once.{count, registered_once, closing_admits_none}
use aries.Control.Binding.{register_again_lem, await-register}
use aries.Control.Release.{release-answers}
use aries.Control.Progress.{settle, release_sandbox-settles}
use aries.Control.Close.{Observed, close_releases}

abbrev id : Bytes
id = codes "task-1"

abbrev request : RegisterRequest
request = record {
  sandbox_id = id;
  target =
      some
        (record { runtime_id = codes "c0ffee"; workdir = codes "/app"; exec_user = codes "root" });
  metadata = some id;
}

abbrev moved_request : RegisterRequest
moved_request = record {
  sandbox_id = id;
  target =
      some
        (record { runtime_id = codes "decaf"; workdir = codes "/app"; exec_user = codes "root" });
  metadata = some id;
}

abbrev endpoint : Endpoint
endpoint = record { port = 2222; user = codes "aries"; transport = codes "ssh" }

-- Admitted, ready, in release, released.
abbrev admitted_server : Server
admitted_server = (register_sandbox request new_server).0

admitted_entries : admitted_server.entries ≡ (id, registering_entry request) ∷ []
unfolding lookup insert register_sandbox register_new is_valid_request is_identifier is_alphanumeric
    not_in_identifier contains_func one_of
admitted_entries = refl

admitted_waits : (register_sandbox request new_server).1 ≡ waiting 1
unfolding lookup insert register_sandbox register_new is_valid_request is_identifier is_alphanumeric
    not_in_identifier contains_func one_of
admitted_waits = refl

admitted_found : lookup id admitted_server.entries ≡ some (registering_entry request)
unfolding lookup bytes_eq
admitted_found = ap (lookup id) admitted_entries

admitted-Reachable : Reachable admitted_server
admitted-Reachable = next same (register_call request)

abbrev ready_entry : Entry
ready_entry = finish_register true (some endpoint) none (registering_entry request)

abbrev ready_server : Server
ready_server = record admitted_server { entries = insert id ready_entry admitted_server.entries }

ready-Step : Step admitted_server ready_server
ready-Step =
    Step.registered id (registering_entry request) true (some endpoint) none admitted_found refl

ready-Reachable : Reachable ready_server
ready-Reachable = next admitted-Reachable ready-Step

ready_found : lookup id ready_server.entries ≡ some ready_entry
unfolding lookup insert bytes_eq
ready_found = ap (λ m. lookup id (insert id ready_entry m)) admitted_entries

id_good : is_identifier id ≡ true
unfolding is_identifier is_alphanumeric not_in_identifier contains_func one_of
id_good = refl

moved_request_valid : is_valid_request moved_request ≡ true
unfolding is_valid_request is_identifier is_alphanumeric not_in_identifier contains_func one_of
moved_request_valid = refl

ready_awaited : await 1 ready_entry ≡ some ready_entry.access
unfolding await closed finish_register publish record_failure registration_error
ready_awaited = refl

reachable-Valid_example : Valid id ready_entry
reachable-Valid_example = Reachable-Valid id ready_server ready_entry ready-Reachable ready_found

later-Onward_example :
    (e' : Entry) × (lookup id ready_server.entries ≡ some e')
    × Onward (registering_entry request) e'
later-Onward_example =
    Later-Onward id admitted_server ready_server (registering_entry request) admitted-Reachable
      (next same ready-Step) admitted_found

registered_once_example : count id ready_server.registered ≤ 1
registered_once_example = registered_once id ready_server ready-Reachable

abbrev closing_server : Server
closing_server = (begin_close ready_server).0

closing_is_closing : closing_server.closing ≡ true
unfolding begin_close
closing_is_closing = refl

closing_server_admits_none :
    ((register_sandbox moved_request closing_server).0.registered ≡ closing_server.registered)
    × ((register_sandbox moved_request closing_server).0.closing ≡ true)
closing_server_admits_none =
    closing_admits_none closing_server (register_sandbox moved_request closing_server).0
      closing_is_closing (next same (register_call moved_request))

register_again_lem_example :
    (e : Entry) × (lookup id ready_server.entries ≡ some e)
    × (((moved_request ≡ request)
          × (register_sandbox moved_request ready_server ≡ (ready_server, answer e.access)))
        ⊎ ((moved_request ≢ request)
            × (register_sandbox moved_request ready_server
                ≡ (ready_server, refused already_exists))))
register_again_lem_example =
    register_again_lem request moved_request new_server ready_server same admitted_waits
      (next same ready-Step) moved_request_valid refl

await-register_example :
    ((ready_entry.access.state ≡ ready) × (is_ready_port ready_entry.access.endpoint ≡ true))
    ⊎ (((ready_entry.access.state ≡ releasing) ⊎ (ready_entry.access.state ≡ released))
        × (ready_entry.access.endpoint ≡ none))
await-register_example =
    await-register id ready_server ready_entry ready_entry.access ready-Reachable ready_found
      ready_awaited

release_sandbox-settles_example :
    (e : Entry) × (lookup id (release_sandbox id admitted_server).0.entries ≡ some e)
    × ((settle true (some endpoint) none [] (settle true (some endpoint) none [] e)).access.state
        ≡ released)
release_sandbox-settles_example =
    release_sandbox-settles id admitted_server true (some endpoint) none [] admitted-Reachable
      id_good

-- Closing with the ready sandbox: the release that Close calls, and its end.
abbrev leaving_server : Server
leaving_server = (release_sandbox id closing_server).0

abbrev leaving_entry : Entry
leaving_entry = release_locked ready_entry

leaving_found : lookup id leaving_server.entries ≡ some leaving_entry
unfolding lookup insert bytes_eq register_sandbox register_new is_valid_request is_identifier
    is_alphanumeric not_in_identifier contains_func one_of release_sandbox release_entry
    release_locked begin_release begin_close finish_register publish record_failure
    registration_error
leaving_found = refl

leaving_running : leaving_entry.running ≡ some Running.release
unfolding release_locked begin_release finish_register publish record_failure registration_error
leaving_running = refl

abbrev gone_entry : Entry
gone_entry = finish_release [] none leaving_entry

abbrev gone_server : Server
gone_server = record leaving_server { entries = insert id gone_entry leaving_server.entries }

gone_found : lookup id gone_server.entries ≡ some gone_entry
unfolding lookup insert bytes_eq register_sandbox register_new is_valid_request is_identifier
    is_alphanumeric not_in_identifier contains_func one_of release_sandbox release_entry
    release_locked begin_release begin_close finish_register publish record_failure
    registration_error
gone_found = refl

leaving-Later : Later leaving_server gone_server
leaving-Later = next same (Step.released id leaving_entry [] none leaving_found leaving_running)

closing-Reachable : Reachable closing_server
closing-Reachable = next ready-Reachable close_call

gone_answer : await_release gone_entry ≡ answer gone_entry.access
unfolding await_release finish_release release_locked begin_release finish_register publish
    record_failure registration_error
gone_answer = refl

release-answers_example :
    (gone_entry.access.state ≡ released)
    ⊎ ((gone_entry.access.state ≡ releasing) × (is_none gone_entry.access.cleanup_error ≡ false))
release-answers_example =
    release-answers id closing_server gone_server gone_entry gone_entry.access closing-Reachable
      id_good leaving-Later gone_found gone_answer

abbrev outcome_of : Option Entry → Result GoError Access
outcome_of none = err (message "sandbox not registered")
outcome_of (some e) = ok e.access

closing-Later : Later closing_server gone_server
closing-Later =
    next (next same (release_call id))
      (Step.released id leaving_entry [] none leaving_found leaving_running)

observed :
    (k : Bytes) → Observed k closing_server gone_server (outcome_of (lookup k gone_server.entries))
observed k = seen (lookup k gone_server.entries) refl
  where
    seen :
        (o : Option Entry)
        → lookup k gone_server.entries ≡ o
        → Observed k closing_server gone_server (outcome_of o)
    seen none h = refl
    seen (some e) h = (gone_server, e, closing-Later, same, h, refl)

close_clean :
    end_close (map (λ k. outcome_of (lookup k gone_server.entries)) (begin_close ready_server).1)
    ≡ none
unfolding end_close close_failure join lookup insert bytes_eq register_sandbox register_new
    is_valid_request is_identifier is_alphanumeric not_in_identifier contains_func one_of
    release_sandbox release_entry release_locked begin_release begin_close finish_release
    finish_register publish record_failure registration_error
close_clean = refl

close_releases_example : gone_entry.access.state ≡ released
close_releases_example =
    close_releases ready_server gone_server (λ k. outcome_of (lookup k gone_server.entries)) id
      gone_entry ready-Reachable closing-Later observed close_clean gone_found

reserved :
    (register_sandbox request (release_sandbox id new_server).0).1
    ≡ answer (reserved_entry id).access
unfolding lookup insert bytes_eq register_sandbox register_again is_valid_request is_identifier
    is_alphanumeric not_in_identifier contains_func one_of release_sandbox
reserved = refl

unknown : get_sandbox id new_server ≡ refused not_found
unfolding get_sandbox find lookup is_identifier is_alphanumeric not_in_identifier contains_func
    one_of
unknown = refl

no_port :
    (finish_register true
      (some (record endpoint { port = 65536 }))
      none
      (registering_entry request)).access.state
    ≡ releasing
unfolding finish_register publish record_failure registration_error release_locked begin_release
no_port = refl
