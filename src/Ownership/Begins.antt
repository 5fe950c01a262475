-- ===== src/Ownership/Begins.antt =====
-- pkg/harness/internal/runtime/ownership.go: what a Begin answers.
use aries.Base.{
  ℕ, Bool, true, false, Option, none, some, ◌≡◌, ◌⊎◌, inl, inr, ◌<◌, refl, sym, subst, arith,
  Bool-cases, Option-cases,
}
use aries.Ownership.Stop.{
  StopAttempt, StopState, new_stop_state, new_attempt, reset, close_attempt, begin,
}
use aries.Ownership.Attempts.{
  Step, began, finished_stop, was_reset, Later, same, next, Sound, begin-cases, finish_stop-cases,
  Later-Sound,
}

-- The current attempt was made.
abbrev IsMade : StopState → Type 0
IsMade s = (k : ℕ) → s.attempt ≡ some k → k < s.made

new_attempt-IsMade :
    (a : StopAttempt) (running : Bool) (s : StopState) → IsMade (new_attempt a running s)
new_attempt-IsMade a running s k there = ground (arith, there)

begin-IsMade : (owned : Bool) (s : StopState) → IsMade s → IsMade (begin owned s).0
begin-IsMade owned s made = elim (begin-cases owned s) [
  | inl eq ↦ subst IsMade (sym eq) made
  | inr (_, inl eq) ↦
      subst IsMade (sym eq) (new_attempt-IsMade (record { done = false; err = none }) true s)
  | inr (_, inr eq) ↦
      subst IsMade (sym eq)
        (unfold reset in new_attempt-IsMade (record { done = true; err = none }) s.running s)
]

Step-IsMade : (s t : StopState) → Step s t → IsMade s → IsMade t
Step-IsMade s t (began owned) made = begin-IsMade owned s made
Step-IsMade s t (finished_stop e u _ h) made =
    let (k, _, _, eq) = finish_stop-cases e s t h in
    subst IsMade (sym eq) (unfold close_attempt in made)
Step-IsMade s t (was_reset e idle) made =
    unfold reset in new_attempt-IsMade (record { done = true; err = e }) s.running s

Later-IsMade : (s : StopState) → Later new_stop_state s → IsMade s
Later-IsMade s same = unfold new_stop_state in (λ k there. cc)
Later-IsMade s (next {t = t} before step) = Step-IsMade t s step (Later-IsMade t before)

-- Every attempt that was made has its answer.
abbrev pub AllAnswered : StopState → Type 0
AllAnswered s = (k : ℕ) → k < s.made → (s.attempts k).done ≡ true

-- The answer of a Begin: its caller owns the cleanup, on a new attempt that is open, and no other
-- cleanup ran; or a cleanup runs and is left as it is, and the caller gets its attempt; or the
-- caller has no runtime to stop, none runs, and it gets an attempt that is closed.
abbrev pub Answers : Bool → StopState → StopState × Option ℕ × Bool → Type 0
Answers owned s (t, attempt, owns) =
    (k : ℕ) × (attempt ≡ some k)
    × (t.attempt ≡ some k)
    × (k < t.made)
    × (((owns ≡ true)
          × (owned ≡ true)
          × (s.running ≡ false)
          × AllAnswered s
          × (k ≡ s.made)
          × (t.running ≡ true)
          × ((t.attempts k).done ≡ false))
        ⊎ (((owns ≡ false) × (s.running ≡ true) × (t ≡ s) × ((t.attempts k).done ≡ false))
            ⊎ ((owns ≡ false)
                × (owned ≡ false)
                × (t.running ≡ false)
                × ((t.attempts k).done ≡ true))))

pub begin_owned :
    (s : StopState)
    → s.running ≡ false
    → begin true s ≡ (new_attempt (record { done = false; err = none }) true s, some s.made, true)
unfolding begin
begin_owned s idle = ground (arith, idle)

pub begin_busy :
    (owned : Bool) (s : StopState) → s.running ≡ true → begin owned s ≡ (s, s.attempt, false)
unfolding begin
begin_busy owned s busy = ground (arith, busy)

pub begin_first :
    (s : StopState)
    → s.running ≡ false
    → s.attempt ≡ none
    → begin false s ≡ (reset none s, some s.made, false)
unfolding begin
begin_first s idle never = ground (arith, idle, never)

pub begin_again :
    (s : StopState) (k : ℕ)
    → s.running ≡ false
    → s.attempt ≡ some k
    → begin false s ≡ (s, some k, false)
unfolding begin
begin_again s k idle there = ground (arith, idle, there)

all_answered : (s : StopState) → s.running ≡ false → Sound s → AllAnswered s
all_answered s idle (closed, _) k below = elim (closed k below) [
  | inl done ↦ done
  | inr (_, busy) ↦ absurd (ground (arith, busy, idle))
]

-- In any state that a manager's callers can bring about, of the attempts that were ever made only
-- the current one can be unanswered, and it is exactly while a cleanup runs; and a Begin gives the
-- cleanup to its caller only if none runs and every attempt has its answer, so two cleanups never
-- run at once. A Begin always returns an attempt: the new one, the one that runs, or a closed one.
pub begin-Answers :
    (owned : Bool) (s : StopState)
    → Later new_stop_state s
    → Sound s × Answers owned s (begin owned s)
begin-Answers owned s later = (sound, each owned)
  where
    sound : Sound s
    sound = Later-Sound s later

    fresh : StopAttempt
    fresh = record { done = false; err = none }

    idle_answer : s.running ≡ false → (owned : Bool) → Answers owned s (begin owned s)
    idle_answer idle true = subst (Answers true s) (sym (begin_owned s idle)) (
      s.made,
      refl,
      refl,
      ground arith,
      inl (refl, refl, idle, all_answered s idle sound, refl, refl, ground arith),
    )
    idle_answer idle false = elim (Option-cases s.attempt) [
      | inl never ↦ subst (Answers false s) (sym (begin_first s idle never)) (
          unfold reset in
          (s.made, refl, refl, ground arith, inr (inr (refl, refl, idle, ground arith))))
      | inr (k, there) ↦
          subst (Answers false s) (sym (begin_again s k idle there))
            (k, refl, there, made k there, inr (inr (refl, refl, idle, done k there)))
    ]
      where
        made : (k : ℕ) → s.attempt ≡ some k → k < s.made
        made = Later-IsMade s later

        done : (k : ℕ) → s.attempt ≡ some k → (s.attempts k).done ≡ true
        done k there = all_answered s idle sound k (made k there)

    each : (owned : Bool) → Answers owned s (begin owned s)
    each owned = elim sound.1 [
      | inl idle ↦ idle_answer idle owned
      | inr (k, there, below, still_open) ↦ elim (Bool-cases s.running) [
        | inr idle ↦ idle_answer idle owned
        | inl busy ↦
            subst (Answers owned s) (sym (begin_busy owned s busy))
              (k, there, there, below, inr (inl (refl, busy, refl, still_open)))
      ]
    ]
