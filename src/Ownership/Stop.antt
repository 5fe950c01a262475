-- ===== src/Ownership/Stop.antt =====
-- pkg/harness/internal/runtime/ownership.go: `StopState` under the manager's mutex, and `StopOwned`.
use aries.Base.{ℕ, suc, Bool, true, false, Option, none, some, ◌==◌, if◌then◌else◌, Bytes, [], ◌∷◌}
use aries.Core.Errors.{GoError}

-- `done` says whether the channel is closed.
pub record StopAttempt : Type 0 where
  pub done : Bool
  pub err : Option GoError

-- `attempt` and `running`, with the attempts that were ever made: callers keep pointers to them. A
-- pointer is the number of an attempt, and `made` is the next one.
pub record StopState : Type 0 where
  pub attempt : Option ℕ
  pub running : Bool
  pub attempts : ℕ → StopAttempt
  pub made : ℕ

unfoldable pub new_stop_state : StopState
new_stop_state = record {
  attempt = none;
  running = false;
  attempts = λ _. record { done = false; err = none };
  made = 0;
}

-- The attempts with one of them replaced.
abbrev pub put : ℕ → StopAttempt → (ℕ → StopAttempt) → ℕ → StopAttempt
put k a attempts n = if n == k then a else attempts n

abbrev pub new_attempt : StopAttempt → Bool → StopState → StopState
new_attempt a running s = record {
  attempt = some s.made;
  running = running;
  attempts = put s.made a s.attempts;
  made = suc s.made;
}

unfoldable pub reset : Option GoError → StopState → StopState
reset e s = new_attempt (record { done = true; err = e }) s.running s

-- The state, the attempt, and whether the caller owns the cleanup. The pointer is nil only where the
-- source would return nil.
unfoldable pub begin : Bool → StopState → StopState × Option ℕ × Bool
begin owned s =
    if s.running
    then (s, s.attempt, false)
    else if owned
    then (new_attempt (record { done = false; err = none }) true s, some s.made, true)
    else elim s.attempt [ none ↦ (reset none s, some s.made, false) | some k ↦ (s, some k, false) ]

unfoldable pub close_attempt : ℕ → Option GoError → StopState → StopState
close_attempt k e s = record s {
  running = false;
  attempts = put k (record { done = true; err = e }) s.attempts;
}

-- `none` is the panic on a nil attempt, or on one whose channel is closed already.
unfoldable pub finish_stop : Option GoError → StopState → Option StopState
finish_stop e s = elim s.attempt [
  | none ↦ none
  | some k ↦ if (s.attempts k).done then none else some (close_attempt k e s)
]

-- What `Wait` returns on an attempt without its context ending; `none` is that it waits.
unfoldable pub await_attempt : ℕ → StopState → Option (Option GoError)
await_attempt k s = if (s.attempts k).done then some (s.attempts k).err else none

-- `StopOwned`: the identity that is left, and the error. `stop`
-- is the deployment's Stop, which is not part of this code.
unfoldable pub stop_owned : (Bytes → Option GoError) → Bytes → Bytes × Option GoError
stop_owned stop [] = ([], none)
stop_owned stop (c ∷ id) = elim (stop (c ∷ id)) [ none ↦ ([], none) | some e ↦ (c ∷ id, some e) ]
