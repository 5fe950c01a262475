-- ===== src/Ownership/Spec.antt =====
-- pkg/harness/internal/runtime/ownership.go: what `StopState` promises, without attempts or pointers:
-- one cell that is empty, busy, or holds the last result.
use aries.Base.{ℕ, Bool, true, false, ◌&&◌, Option, none, some, List, [], ◌∷◌}
use aries.Core.Errors.{GoError}
use aries.Ownership.Stop.{StopState, begin, finish_stop, close_attempt, reset, await_attempt}

pub data Call : Type 0 where
  begins : Bool → Call  -- whether there is a runtime to stop
  finishes : Option GoError → Call
  resets : Option GoError → Call
  awaits : Call  -- the current attempt, without its context ending

pub data CellReply : Type 0 where
  -- whether the caller is to stop the runtime, and what the attempt that it gets says then
  owns : Bool → CellReply → CellReply
  done : CellReply
  panics : CellReply
  no_attempt : CellReply
  still_waits : CellReply
  answers : Option GoError → CellReply

pub data Cell : Type 0 where
  empty : Cell
  busy : Cell
  holds : Option GoError → Cell

-- The cell's calls.
abbrev pub cell_begin : Bool → Cell → Cell × CellReply
cell_begin owned busy = (busy, owns false still_waits)
cell_begin true empty = (busy, owns true still_waits)
cell_begin true (holds r) = (busy, owns true still_waits)
cell_begin false empty = (holds none, owns false (answers none))
cell_begin false (holds r) = (holds r, owns false (answers r))

abbrev pub cell_call : Call → Cell → Cell × CellReply
cell_call (begins owned) c = cell_begin owned c
cell_call (finishes e) busy = (holds e, done)
cell_call (finishes e) empty = (empty, panics)
cell_call (finishes e) (holds r) = (holds e, panics)
cell_call (resets e) c = (holds e, done)
cell_call awaits empty = (empty, no_attempt)
cell_call awaits busy = (busy, still_waits)
cell_call awaits (holds r) = (holds r, answers r)

-- `Reset` is for a cell on which no stop runs.
abbrev pub allowed : Call → Cell → Bool
allowed (resets e) busy = false
allowed _ _ = true

abbrev pub all_allowed : List Call → Cell → Bool
all_allowed [] c = true
all_allowed (call ∷ calls) c = allowed call c && all_allowed calls (cell_call call c).0

abbrev pub cell_replies : List Call → Cell → List CellReply
cell_replies [] c = []
cell_replies (call ∷ calls) c = (cell_call call c).1 ∷ cell_replies calls (cell_call call c).0

-- The same calls of the code's state. A Finish that panics on a nil attempt changes nothing; one that
-- panics on a closed channel has set the error before that.
abbrev pub panicked : Option GoError → StopState → StopState
panicked e s = elim s.attempt [ none ↦ s | some k ↦ close_attempt k e s ]

abbrev pub finish_reply : Option GoError → StopState → Option StopState → StopState × CellReply
finish_reply e s none = (panicked e s, panics)
finish_reply e s (some t) = (t, done)

abbrev pub answer_of : Option (Option GoError) → CellReply
answer_of none = still_waits
answer_of (some r) = answers r

abbrev pub answer_at : StopState → Option ℕ → CellReply
answer_at s none = no_attempt
answer_at s (some k) = answer_of (await_attempt k s)

-- What a Begin returns, read through its pointer.
abbrev pub begin_reply : StopState × Option ℕ × Bool → StopState × CellReply
begin_reply (s, attempt, owned) = (s, owns owned (answer_at s attempt))

abbrev pub state_call : Call → StopState → StopState × CellReply
state_call (begins owned) s = begin_reply (begin owned s)
state_call (finishes e) s = finish_reply e s (finish_stop e s)
state_call (resets e) s = (reset e s, done)
state_call awaits s = (s, answer_at s s.attempt)

abbrev pub state_replies : List Call → StopState → List CellReply
state_replies [] s = []
state_replies (call ∷ calls) s = (state_call call s).1 ∷ state_replies calls (state_call call s).0
