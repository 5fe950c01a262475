-- ===== src/Ownership/Examples.antt =====
-- The theorems on stop attempts at a concrete run: a stop that fails, and its retry.
use aries.Base.{ℕ, ◌<◌, arith, true, false, Option, none, some, List, [], ◌∷◌, codes, ◌≡◌, refl}
use aries.Core.Errors.{GoError, message}
use aries.Ownership.Stop.{
  StopState, new_stop_state, begin, close_attempt, finish_stop, await_attempt, stop_owned,
}
use aries.Ownership.Spec.{
  Call, begins, finishes, awaits, owns, done, panics, still_waits, answers, empty, cell_replies,
  state_replies,
}
use aries.Ownership.Refines.{state_replies-new}
use aries.Ownership.Begins.{Answers, begin-Answers}
use aries.Ownership.Attempts.{
  Later, same, next, began, Sound, finish_stop-answers, await_attempt-Later,
}

abbrev refused : Option GoError
refused = some (message "container is still there")

abbrev stopping : StopState
stopping = (begin true new_stop_state).0

stopping-Later : Later new_stop_state stopping
stopping-Later = next same (began true)

begin-Answers_example : Sound stopping × Answers true stopping (begin true stopping)
begin-Answers_example = begin-Answers true stopping stopping-Later

stopping_busy : stopping.running ≡ true
unfolding begin new_stop_state
stopping_busy = refl

failed_stop_is_published :
    (k : ℕ) × (t : StopState) × (stopping.attempt ≡ some k)
    × (finish_stop refused stopping ≡ some t)
    × (await_attempt k t ≡ some refused)
    × (t.running ≡ false)
failed_stop_is_published = finish_stop-answers refused stopping stopping-Later stopping_busy

abbrev failed_stop : StopState
failed_stop = close_attempt 0 refused stopping

failed_answer : await_attempt 0 failed_stop ≡ some refused
unfolding await_attempt close_attempt begin new_stop_state
failed_answer = refl

failed_made : 0 < failed_stop.made
unfolding close_attempt begin new_stop_state
failed_made = ground arith

await_attempt-Later_example : await_attempt 0 (begin true failed_stop).0 ≡ some refused
await_attempt-Later_example =
    await_attempt-Later 0 refused failed_stop (begin true failed_stop).0 failed_made failed_answer
      (next same (began true))

kept : stop_owned (λ id. refused) (codes "c0ffee") ≡ (codes "c0ffee", refused)
unfolding stop_owned
kept = refl

-- A stop that fails while another caller asks, and its retry.
abbrev calls : List Call
calls =
    begins true
    ∷ begins true
    ∷ awaits
    ∷ finishes refused
    ∷ awaits
    ∷ finishes none
    ∷ begins true
    ∷ finishes none
    ∷ awaits
    ∷ []

state_replies-new_example : state_replies calls new_stop_state ≡ cell_replies calls empty
state_replies-new_example = state_replies-new calls refl

what_callers_see :
    state_replies calls new_stop_state
    ≡ owns true still_waits
      ∷ owns false still_waits
      ∷ still_waits
      ∷ done
      ∷ answers refused
      ∷ panics
      ∷ owns true still_waits
      ∷ done
      ∷ answers none
      ∷ []
what_callers_see = state_replies-new calls refl
