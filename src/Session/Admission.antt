-- ===== src/Session/Admission.antt =====
-- pkg/bridge/admission.go: `registerSandbox`, which asks again after a result that it cannot be
-- sure of. The loop runs on fuel, and `none` is that the fuel ran out.
use aries.Base.{
  ℕ, zero, suc, Bool, true, false, Option, none, some, if◌then◌else◌, Bytes, bytes_eq, Result, ok,
  err,
}
use aries.Core.Errors.{GoError, message, joined, cons, nil}
use aries.Control.State.{State, registering, Access}

-- `status.StatusCode(err)`, as far as it is told apart.
pub data StatusCode : Type 0 where
  unavailable deadline_exceeded canceled not_found other_code : StatusCode

-- The control client, the context and the timer of a poll. A call returns an access, which may be
-- nil, or an error. The request of every call is the session's own.
pub record Client (W : Type 0) : Type 0 where
  pub register_sandbox : W → W × Result GoError (Option Access)
  pub get_sandbox : W → W × Result GoError (Option Access)
  pub code : GoError → StatusCode
  pub context_err : W → Option GoError
  pub wait_poll : W → W × Option GoError

abbrev pub is_uncertain : StatusCode → Bool
is_uncertain unavailable = true
is_uncertain deadline_exceeded = true
is_uncertain canceled = true
is_uncertain _ = false

abbrev pub is_not_found : StatusCode → Bool
is_not_found not_found = true
is_not_found _ = false

abbrev pub is_registering : State → Bool
is_registering registering = true
is_registering _ = false

-- `validateAccess`: the access, if it is the session's own.
unfoldable pub validate_access : Bytes → Option Access → Result GoError Access
validate_access id none = err (message "bridge sandbox identity differs")
validate_access id (some a) =
    if bytes_eq a.sandbox_id id then ok a else err (message "bridge sandbox identity differs")

-- What a result comes to: an answer, or another poll.
pub data Verdict : Type 0 where
  settles : Result GoError Access → Verdict
  asks_again : Verdict

abbrev pub judge_access : Result GoError Access → Verdict
judge_access (err e) = settles (err e)
judge_access (ok a) = if is_registering a.state then asks_again else settles (ok a)

-- `errors.Join(err, ctx.Err())`, where the first may be nil.
abbrev pub with_result : Result GoError (Option Access) → GoError → GoError
with_result (ok a) ended = joined (cons ended nil)
with_result (err e) ended = joined (cons e (cons ended nil))

module _ {W : Type 0} (client : Client W) where
  unfoldable pub judge_result : Bytes → Result GoError (Option Access) → Verdict
  judge_result id (ok a) = judge_access (validate_access id a)
  judge_result id (err e) = if is_uncertain (client.code e) then asks_again else settles (err e)

  -- The turn's tests: those of the context come first.
  unfoldable pub judge_turn : Bytes → Result GoError (Option Access) → W → Verdict
  judge_turn id result w = elim (client.context_err w) [
    | some ended ↦ settles (err (with_result result ended))
    | none ↦ judge_result id result
  ]

  -- A confirmed NotFound permits submitting again.
  abbrev pub resubmit_missing :
      Result GoError (Option Access) → W → W × Result GoError (Option Access)
  resubmit_missing (ok a) w = (w, ok a)
  resubmit_missing (err e) w =
      let again = client.register_sandbox w in
      if is_not_found (client.code e) then again else (w, err e)

  unfoldable pub ask_again : W → W × Result GoError (Option Access)
  ask_again w = let (w1, result) = client.get_sandbox w in resubmit_missing result w1

  -- The rest of the loop after a poll.
  abbrev pub polled :
      Option GoError → W → Option (W × Result GoError Access) → Option (W × Result GoError Access)
  polled (some e) w next = some (w, err e)
  polled none w next = next

  unfoldable pub register_loop :
      ℕ → Bytes → Result GoError (Option Access) → W → Option (W × Result GoError Access)
  register_loop zero id result w = none
  register_loop (suc fuel) id result w = elim (judge_turn id result w) [
    | settles answer ↦ some (w, answer)
    | asks_again ↦
        let (w1, failure) = client.wait_poll w in
        let (w2, next) = ask_again w1 in polled failure w1 (register_loop fuel id next w2)
  ]

  unfoldable pub admit_sandbox : ℕ → Bytes → W → Option (W × Result GoError Access)
  admit_sandbox fuel id w =
      let (w1, result) = client.register_sandbox w in register_loop fuel id result w1
