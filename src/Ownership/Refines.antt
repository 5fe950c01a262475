-- ===== src/Ownership/Refines.antt =====
-- pkg/harness/internal/runtime/ownership.go: the attempts and their pointers come to the cell of Spec.
use aries.Base.{
  ℕ, Bool, true, false, Option, none, some, List, [], ◌∷◌, ◌≡◌, refl, sym, ap, ap₂, subst, ◌∙◌,
  arith,
}
use aries.Core.Errors.{GoError}
use aries.Ownership.Stop.{
  StopAttempt, StopState, new_stop_state, put, new_attempt, begin, finish_stop, close_attempt,
  reset, await_attempt,
}
use aries.Ownership.Begins.{begin_busy, begin_owned, begin_first, begin_again}
use aries.Ownership.Spec.{
  Call, begins, finishes, resets, awaits, CellReply, owns, done, panics, still_waits, answers, Cell,
  empty, busy, holds, cell_begin, cell_call, allowed, all_allowed, cell_replies, finish_reply,
  panicked, begin_reply, answer_of, answer_at, state_call, state_replies,
}

-- A state that shows a cell: the current attempt is open exactly where a stop runs.
data Shows (s : StopState) : Cell → Type 0 where
  shows_empty : s.running ≡ false → s.attempt ≡ none → Shows s empty
  shows_busy :
      (k : ℕ) → s.running ≡ true → s.attempt ≡ some k → (s.attempts k).done ≡ false → Shows s busy
  shows_result :
      (k : ℕ) (r : Option GoError)
      → s.running ≡ false
      → s.attempt ≡ some k
      → s.attempts k ≡ record { done = true; err = r }
      → Shows s (holds r)

abbrev Refined : Cell × CellReply → StopState × CellReply → Type 0
Refined (c, r) (s, r') = Shows s c × (r ≡ r')

put_same : (k : ℕ) (a : StopAttempt) (attempts : ℕ → StopAttempt) → put k a attempts k ≡ a
put_same k a attempts = ground arith

close_attempt-Shows :
    (k : ℕ) (e : Option GoError) (s : StopState)
    → s.attempt ≡ some k
    → Shows (close_attempt k e s) (holds e)
unfolding close_attempt
close_attempt-Shows k e s there =
    shows_result k e refl there (put_same k (record { done = true; err = e }) s.attempts)

reset-Shows : (e : Option GoError) (s : StopState) → s.running ≡ false → Shows (reset e s) (holds e)
unfolding reset
reset-Shows e s idle =
    shows_result s.made e idle refl (put_same s.made (record { done = true; err = e }) s.attempts)

-- What a Begin returns, as a reply.
abbrev Begun : Cell × CellReply → StopState × Option ℕ × Bool → Type 0
Begun spec result = Refined spec (begin_reply result)

open_reply :
    (k : ℕ) (s : StopState) → (s.attempts k).done ≡ false → still_waits ≡ answer_at s (some k)
open_reply k s still_open = sym (ap answer_of waiting)
  where
    waiting : await_attempt k s ≡ none
    waiting = unfold await_attempt in ground (arith, still_open)

closed_reply :
    (k : ℕ) (r : Option GoError) (s : StopState)
    → s.attempts k ≡ record { done = true; err = r }
    → answers r ≡ answer_at s (some k)
closed_reply k r s eq = sym (ap answer_of (answered (ap (λ a. a.done) eq) (ap (λ a. a.err) eq)))
  where
    answered : (s.attempts k).done ≡ true → (s.attempts k).err ≡ r → await_attempt k s ≡ some r
    answered closed result = unfold await_attempt in ground (arith, closed, result)

reset-attempt :
    (e : Option GoError) (s : StopState)
    → (reset e s).attempts s.made ≡ record { done = true; err = e }
unfolding reset
reset-attempt e s = put_same s.made (record { done = true; err = e }) s.attempts

new_attempt-Shows :
    (s : StopState) → Shows (new_attempt (record { done = false; err = none }) true s) busy
new_attempt-Shows s =
    shows_busy s.made refl refl
      (ap (λ a. a.done) (put_same s.made (record { done = false; err = none }) s.attempts))

begin_owned-Begun :
    (s : StopState) → s.running ≡ false → Begun (busy, owns true still_waits) (begin true s)
begin_owned-Begun s idle =
    subst (Begun (busy, owns true still_waits)) (sym (begin_owned s idle))
      (new_attempt-Shows s, ap (owns true) (open_reply s.made fresh still_open))
  where
    fresh : StopState
    fresh = new_attempt (record { done = false; err = none }) true s

    still_open : (fresh.attempts s.made).done ≡ false
    still_open = ap (λ a. a.done) (put_same s.made (record { done = false; err = none }) s.attempts)

cell_begin-Begun :
    (owned : Bool) (c : Cell) (s : StopState)
    → Shows s c
    → Begun (cell_begin owned c) (begin owned s)
cell_begin-Begun owned busy s (shows_busy k running there still_open) =
    subst (Begun (busy, owns false still_waits)) (sym (begin_busy owned s running)) (
      shows_busy k running there still_open,
      ap (owns false) (open_reply k s still_open ∙ ap (answer_at s) (sym there)),
    )
cell_begin-Begun true empty s (shows_empty idle never) = begin_owned-Begun s idle
cell_begin-Begun true (holds r) s (shows_result k _ idle there eq) = begin_owned-Begun s idle
cell_begin-Begun false empty s (shows_empty idle never) =
    subst (Begun (holds none, owns false (answers none))) (sym (begin_first s idle never)) (
      reset-Shows none s idle,
      ap (owns false) (closed_reply s.made none (reset none s) (reset-attempt none s)),
    )
cell_begin-Begun false (holds r) s (shows_result k _ idle there eq) =
    subst (Begun (holds r, owns false (answers r))) (sym (begin_again s k idle there))
      (shows_result k r idle there eq, ap (owns false) (closed_reply k r s eq))

-- What a Finish comes to.
abbrev Ended : Cell × CellReply → Option GoError → StopState → Option StopState → Type 0
Ended spec e s t = Refined spec (finish_reply e s t)

finish_stop-Ended :
    (e : Option GoError) (c : Cell) (s : StopState)
    → Shows s c
    → Ended (cell_call (finishes e) c) e s (finish_stop e s)
finish_stop-Ended e empty s (shows_empty idle never) =
    subst (Ended (empty, panics) e s) (sym (no_attempt_panics never))
      (subst (λ t. Shows t empty) (sym (kept never)) (shows_empty idle never), refl)
  where
    no_attempt_panics : s.attempt ≡ none → finish_stop e s ≡ none
    no_attempt_panics never = unfold finish_stop in ground (arith, never)

    kept : s.attempt ≡ none → panicked e s ≡ s
    kept never = ground (arith, never)
finish_stop-Ended e busy s (shows_busy k running there still_open) =
    subst (Ended (holds e, done) e s) (sym (ends there still_open))
      (close_attempt-Shows k e s there, refl)
  where
    ends :
        s.attempt ≡ some k
        → (s.attempts k).done ≡ false
        → finish_stop e s ≡ some (close_attempt k e s)
    ends there still_open = unfold finish_stop in ground (arith, there, still_open)
finish_stop-Ended e (holds r) s (shows_result k _ idle there eq) =
    subst (Ended (holds e, panics) e s) (sym (panics_twice there (ap (λ a. a.done) eq)))
      (subst (λ t. Shows t (holds e)) (sym (set there)) (close_attempt-Shows k e s there), refl)
  where
    panics_twice : s.attempt ≡ some k → (s.attempts k).done ≡ true → finish_stop e s ≡ none
    panics_twice there closed = unfold finish_stop in ground (arith, there, closed)

    set : s.attempt ≡ some k → panicked e s ≡ close_attempt k e s
    set there = ground (arith, there)

answer_at-Refined :
    (c : Cell) (s : StopState) → Shows s c → Refined (cell_call awaits c) (s, answer_at s s.attempt)
answer_at-Refined empty s (shows_empty idle never) =
    (shows_empty idle never, sym (ap (answer_at s) never))
answer_at-Refined busy s (shows_busy k running there still_open) = (
  shows_busy k running there still_open,
  open_reply k s still_open ∙ ap (answer_at s) (sym there),
)
answer_at-Refined (holds r) s (shows_result k _ idle there eq) =
    (shows_result k r idle there eq, closed_reply k r s eq ∙ ap (answer_at s) (sym there))

state_call-Refined :
    (call : Call) (c : Cell) (s : StopState)
    → Shows s c
    → allowed call c ≡ true
    → Refined (cell_call call c) (state_call call s)
state_call-Refined (begins owned) c s h ok = cell_begin-Begun owned c s h
state_call-Refined (finishes e) c s h ok = finish_stop-Ended e c s h
state_call-Refined awaits c s h ok = answer_at-Refined c s h
state_call-Refined (resets e) empty s (shows_empty idle never) ok = (reset-Shows e s idle, refl)
state_call-Refined (resets e) busy s h ok = cc
state_call-Refined (resets e) (holds r) s (shows_result k _ idle there eq) ok =
    (reset-Shows e s idle, refl)

state_replies-cell_replies :
    (calls : List Call) (c : Cell) (s : StopState)
    → Shows s c
    → all_allowed calls c ≡ true
    → state_replies calls s ≡ cell_replies calls c
state_replies-cell_replies [] c s h ok = refl
state_replies-cell_replies (call ∷ calls) c s h ok =
    let (shown, same) = state_call-Refined call c s h (ground (arith, ok)) in
    ap₂ (λ r rs. r ∷ rs) (sym same)
      (state_replies-cell_replies calls (cell_call call c).0 (state_call call s).0 shown
        (ground (arith, ok)))

-- Whatever Begin, Finish, Reset and Wait callers make of a new StopState, one after another, if
-- Reset comes only where no stop runs: they are answered as by a cell that is empty, busy or holds
-- the last result. So one caller at a time owns the cleanup, and a Begin returns an attempt that
-- waits for the cleanup that runs or has its result; a Finish without a cleanup panics, after it
-- replaced the result that there is; and who waits gets the last result, or waits for the cleanup.
pub state_replies-new :
    (calls : List Call)
    → all_allowed calls empty ≡ true
    → state_replies calls new_stop_state ≡ cell_replies calls empty
state_replies-new calls ok =
    state_replies-cell_replies calls empty new_stop_state
      (unfold new_stop_state in shows_empty refl refl) ok
