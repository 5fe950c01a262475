-- ===== src/Service/Start.antt =====
-- pkg/bridge/service.go: `Start` and `NewSession`. The stages of `Start` stand from the last to the
-- first; its loop runs on fuel, and `none` is that the fuel ran out.
use aries.Base.{
  ℕ, zero, suc, ℤ, Bool, true, false, not, [], ◌∷◌, ◌++◌, Option, none, some, if◌then◌else◌, Bytes,
  Result, ok, err,
}
use aries.Core.Errors.{
  GoError, message, wrapped, sentinel, allocation_unconfirmed, errors_is, join, non_nil,
}
use aries.Session.Stop.{Session}
use aries.Service.State.{
  starting, running, is_new, is_running, is_blank, Service, RuntimeRequest, runtime_request,
  ChildConfig, child_config, raw_log_name_of,
}

-- The runtime, the files, the control connection and the poll's timer. The context shows as errors
-- of the calls. `serving` is that the health check was answered with SERVING.
pub record Runtime (W : Type 0) : Type 0 where
  pub make_dir : Bytes → W → W × Option GoError
  pub nonce : W → W × Result GoError Bytes
  pub create : RuntimeRequest → W → W × Bytes × Option GoError
  pub record_runtime : Service → W → W × Option GoError
  pub encode : ChildConfig → Result GoError Bytes
  pub archive : Bytes → Result GoError Bytes
  pub upload_archive : Bytes → Bytes → Bytes → W → W × Option GoError
  pub validate : Bytes → RuntimeRequest → W → W × Option GoError
  pub start : Bytes → W → W × Option GoError
  pub address : Bytes → ℤ → W → W × Result GoError Bytes
  pub new_client : Bytes → W → W × Option GoError
  pub serving : W → W × Bool
  pub close_connection : W → W × Option GoError
  pub is_live : Bytes → W → W × Bool × Option GoError
  pub wait_poll : W → W × Option GoError
  pub stop : Bytes → W → W × Option GoError
  pub close : W → W × Option GoError

abbrev pub ServiceOutcome : Type 0 → Type 0
ServiceOutcome W = Service × W × Option GoError

abbrev pub exited : GoError
exited = message "bridge runtime exited before control readiness"

abbrev pub empty_identity : GoError
empty_identity = wrapped "bridge runtime returned empty identity" (sentinel allocation_unconfirmed)

-- The identity and the error that `Create` returned, as the service keeps them.
unfoldable pub keep_identity : Bytes → Option GoError → Service → Service × Option GoError
keep_identity id (some e) s = (
  record s {
    runtime_id = id;
    allocation_err = if errors_is (some e) allocation_unconfirmed then some e else s.allocation_err;
  },
  some e,
)
keep_identity id none s =
    if is_blank id
    then (record s { runtime_id = id; allocation_err = some empty_identity }, some empty_identity)
    else (record s { runtime_id = id }, none)

module _ {W : Type 0} (runtime : Runtime W) where
  -- What one turn of the loop comes to before the poll: the world, and the answer if it is one.
  pub data Turn : Type 0 where
    answers : ServiceOutcome W → Turn
    polls : Service → W → Turn

  -- The runtime is asked after, when the control service does not answer.
  unfoldable pub ask_running : Service → W → Turn
  ask_running s w =
      let (w1, live, failure) = runtime.is_live s.runtime_id w in
      let dead = answers (s, w1, join (non_nil (some exited ∷ failure ∷ []))) in
      elim failure [ some e ↦ dead | none ↦ if live then polls s w1 else dead ]

  unfoldable pub check_health : Service → W → Turn
  check_health s w =
      let (w1, serves) = runtime.serving w in
      let (w2, _) = runtime.close_connection w1 in
      let next = ask_running s w2 in
      if serves then answers (record s { phase = running; connected = true }, w1, none) else next

  abbrev pub connect : Option GoError → Service → W → Turn
  connect (some e) s w = answers (s, w, some e)
  connect none s w = check_health s w

  abbrev pub dial : Result GoError Bytes → Service → W → Turn
  dial (err e) s w = ask_running s w
  dial (ok address) s w = let (w1, failure) = runtime.new_client address w in connect failure s w1

  unfoldable pub readiness_turn : Service → W → Turn
  readiness_turn s w =
      let (w1, address) = runtime.address s.runtime_id s.options.launch.service_port w in
      dial address s w1

  -- The loop: `next` is the rest of it, for when the poll's time is over.
  abbrev pub after_poll :
      Option GoError → Service → W → Option (ServiceOutcome W) → Option (ServiceOutcome W)
  after_poll (some e) s w next = some (s, w, some e)
  after_poll none s w next = next

  unfoldable pub await_control : ℕ → Service → W → Option (ServiceOutcome W)
  await_control zero s w = none
  await_control (suc fuel) s w = elim (readiness_turn s w) [
    | answers outcome ↦ some outcome
    | polls s1 w1 ↦
        let (w2, failure) = runtime.wait_poll w1 in
        after_poll failure s1 w2 (await_control fuel s1 w2)
  ]

  -- One call whose error is returned, and what follows it.
  abbrev pub or_return :
      Option GoError → Service → W → Option (ServiceOutcome W) → Option (ServiceOutcome W)
  or_return (some e) s w next = some (s, w, some e)
  or_return none s w next = next

  unfoldable pub launch_runtime :
      ℕ → RuntimeRequest → Bytes → Service → W → Option (ServiceOutcome W)
  launch_runtime fuel request files s w =
      let (w1, no_upload) = runtime.upload_archive s.runtime_id request.workdir files w in
      let (w2, invalid) = runtime.validate s.runtime_id request w1 in
      let (w3, unstarted) = runtime.start s.runtime_id w2 in
      or_return no_upload s w1
        (or_return invalid s w2 (or_return unstarted s w3 (await_control fuel s w3)))

  abbrev pub pack :
      ℕ → RuntimeRequest → Result GoError Bytes → Service → W → Option (ServiceOutcome W)
  pack fuel request (err e) s w = some (s, w, some e)
  pack fuel request (ok files) s w = launch_runtime fuel request files s w

  abbrev pub configure :
      ℕ → RuntimeRequest → Result GoError Bytes → Service → W → Option (ServiceOutcome W)
  configure fuel request (err e) s w = some (s, w, some e)
  configure fuel request (ok data') s w = pack fuel request (runtime.archive data') s w

  -- What is recorded after `Create`, whose error is returned with that of the record.
  unfoldable pub record_created :
      ℕ → RuntimeRequest → Option GoError → Service → W → Option (ServiceOutcome W)
  record_created fuel request failure s w =
      let (w1, unrecorded) = runtime.record_runtime s w in
      let next = configure fuel request (runtime.encode (child_config s.options)) s w1 in
      elim unrecorded [
        | some e ↦ some (s, w1, join (non_nil (failure ∷ some e ∷ [])))
        | none ↦ or_return failure s w1 next
      ]

  unfoldable pub create_runtime : ℕ → Bytes → Service → W → Option (ServiceOutcome W)
  create_runtime fuel id s w =
      let request = runtime_request id s.options in
      let (w1, identity, refused) = runtime.create request w in
      let (s1, failure) =
        keep_identity identity refused (record s { runtime_name = request.name }) in
      record_created fuel request failure s1 w1

  abbrev pub with_nonce : ℕ → Result GoError Bytes → Service → W → Option (ServiceOutcome W)
  with_nonce fuel (err e) s w = some (s, w, some e)
  with_nonce fuel (ok id) s w = create_runtime fuel id s w

  unfoldable pub begin_start : ℕ → Service → W → Option (ServiceOutcome W)
  begin_start fuel s w =
      let (w1, no_dir) = runtime.make_dir s.options.output_dir w in
      let (w2, id) = runtime.nonce w1 in or_return no_dir s w1 (with_nonce fuel id s w2)

  unfoldable pub service_start : ℕ → Service → W → Option (ServiceOutcome W)
  service_start fuel s w =
      let next = begin_start fuel (record s { phase = starting }) w in
      if is_new s.phase
      then next
      else some (s, w, some (message "bridge service cannot be restarted"))

abbrev pub session_of : Service → Session
session_of s = record {
  stopped = false;
  registered = false;
  exposed = false;
  is_released = false;
  collected = false;
  manifest = [];
  evidence_err = none;
  sandbox_id = [];
  raw_log_name = raw_log_name_of s.transport;
  retain_raw_log = s.options.retain_raw_log;
  helper = false;
}

-- `NewSession`; `root` is the directory made absolute.
unfoldable pub new_session : Result GoError Bytes → Service → Result GoError Service
new_session root s =
    if not (is_running s.phase)
    then err (message "bridge service is not accepting sessions")
    else elim root [
      | err e ↦ err e
      | ok _ ↦ ok (record s { sessions = s.sessions ++ session_of s ∷ [] })
    ]
