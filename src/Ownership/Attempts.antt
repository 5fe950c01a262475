-- ===== src/Ownership/Attempts.antt =====
-- pkg/harness/internal/runtime/ownership.go: what callers of Stop can rely on.
use aries.Base.{
  ℕ, suc, Bool, true, false, not, Option, none, some, ◌==◌, ==_iff, ◌≡◌, ◌≢◌, ◌⊎◌, inl, inr, ◌<◌,
  refl, sym, ap, subst, ◌∙◌, arith, Bool-cases, Option-cases,
}
use aries.Core.Errors.{GoError}
use aries.Ownership.Stop.{
  StopAttempt, StopState, new_stop_state, put, new_attempt, reset, close_attempt, begin,
  finish_stop, await_attempt,
}

-- A step of a manager: it begins a stop, finishes the one that it runs, or resets while none runs.
pub data Step (s : StopState) : StopState → Type 0 where
  began : (owned : Bool) → Step s (begin owned s).0
  finished_stop :
      (e : Option GoError) (t : StopState) → s.running ≡ true → finish_stop e s ≡ some t → Step s t
  was_reset : (e : Option GoError) → s.running ≡ false → Step s (reset e s)

pub data Later (s : StopState) : StopState → Type 0 where
  same : Later s s
  next : {t u : StopState} → Later s t → Step t u → Later s u

-- The attempt that is current, if there is one, was made; it is open exactly while a cleanup runs;
-- and every other attempt that was made is closed.
abbrev pub Sound : StopState → Type 0
Sound s =
    ((k : ℕ)
      → k < s.made
      → ((s.attempts k).done ≡ true) ⊎ ((s.attempt ≡ some k) × (s.running ≡ true)))
    × ((s.running ≡ false)
        ⊎ ((k : ℕ) × (s.attempt ≡ some k) × (k < s.made) × ((s.attempts k).done ≡ false)))

new_attempt-Sound :
    (a : StopAttempt) (running : Bool) (s : StopState)
    → s.running ≡ false
    → (running ≡ not a.done)
    → Sound s
    → Sound (new_attempt a running s)
new_attempt-Sound a running s idle fits (closed, _) = (each, current)
  where
    each :
        (k : ℕ)
        → k < suc s.made
        → ((put s.made a s.attempts k).done ≡ true) ⊎ ((some s.made ≡ some k) × (running ≡ true))
    each k below = elim (Bool-cases (k == s.made)) [
      | inl equal ↦ elim (Bool-cases a.done) [
        | inl done ↦ inl (ground (arith, equal, done))
        | inr still_open ↦
            inr (ap some (sym ((==_iff k s.made).0 equal)), ground (arith, fits, still_open))
      ]
      | inr other ↦ elim (closed k (ground (arith, below, other))) [
        | inl done ↦ inl (ground (arith, other, done))
        | inr (_, busy) ↦ absurd (ground (arith, busy, idle))
      ]
    ]

    current :
        (running ≡ false)
        ⊎ ((k : ℕ) × (some s.made ≡ some k)
            × (k < suc s.made)
            × ((put s.made a s.attempts k).done ≡ false))
    current = elim (Bool-cases running) [
      | inr stopped ↦ inl stopped
      | inl busy ↦ inr (s.made, refl, ground arith, ground (arith, fits, busy))
    ]

-- What `begin` does to the state.
pub begin-cases :
    (owned : Bool) (s : StopState)
    → ((begin owned s).0 ≡ s)
      ⊎ ((s.running ≡ false)
          × (((begin owned s).0 ≡ new_attempt (record { done = false; err = none }) true s)
              ⊎ ((begin owned s).0 ≡ reset none s)))
unfolding begin
begin-cases owned s = elim (Bool-cases s.running) [
  | inl busy ↦ inl (ground (arith, busy))
  | inr idle ↦ elim (Bool-cases owned) [
    | inl own ↦ inr (idle, inl (ground (arith, idle, own)))
    | inr other ↦ elim (Option-cases s.attempt) [
      | inl never ↦ inr (idle, inr (ground (arith, idle, other, never)))
      | inr (k, there) ↦ inl (ground (arith, idle, other, there))
    ]
  ]
]

reset-Sound : (e : Option GoError) (s : StopState) → s.running ≡ false → Sound s → Sound (reset e s)
unfolding reset
reset-Sound e s idle sound =
    new_attempt-Sound (record { done = true; err = e }) s.running s idle idle sound

begin-Sound : (owned : Bool) (s : StopState) → Sound s → Sound (begin owned s).0
begin-Sound owned s sound = elim (begin-cases owned s) [
  | inl eq ↦ subst Sound (sym eq) sound
  | inr (idle, inl eq) ↦
      subst Sound (sym eq)
        (new_attempt-Sound (record { done = false; err = none }) true s idle refl sound)
  | inr (idle, inr eq) ↦ subst Sound (sym eq) (reset-Sound none s idle sound)
]

-- A stop that finishes closes the current attempt, which was open.
pub finish_stop-cases :
    (e : Option GoError) (s t : StopState)
    → finish_stop e s ≡ some t
    → (k : ℕ) × (s.attempt ≡ some k) × ((s.attempts k).done ≡ false) × (t ≡ close_attempt k e s)
unfolding finish_stop
finish_stop-cases e s t h = elim (Option-cases s.attempt) [
  | inl never ↦ absurd (ground (arith, never, h))
  | inr (k, there) ↦ elim (Bool-cases (s.attempts k).done) [
    | inl done ↦ absurd (ground (arith, there, done, h))
    | inr still_open ↦ (k, there, still_open, ground (arith, there, still_open, h))
  ]
]

-- A state that is sound stays so when its current attempt is closed.
close_attempt-Sound :
    (k : ℕ) (e : Option GoError) (s : StopState)
    → s.attempt ≡ some k
    → Sound s
    → Sound (close_attempt k e s)
unfolding close_attempt
close_attempt-Sound k e s there (closed, _) = (each, inl refl)
  where
    each :
        (j : ℕ)
        → j < s.made
        → ((put k (record { done = true; err = e }) s.attempts j).done ≡ true)
          ⊎ ((s.attempt ≡ some j) × (false ≡ true))
    each j below = elim (Bool-cases (j == k)) [
      | inl equal ↦ inl (ground (arith, equal))
      | inr other ↦ elim (closed j below) [
        | inl done ↦ inl (ground (arith, other, done))
        | inr (current, _) ↦ absurd (ground (arith, other, there, current))
      ]
    ]

Step-Sound : (s t : StopState) → Step s t → Sound s → Sound t
Step-Sound s t (began owned) sound = begin-Sound owned s sound
Step-Sound s t (finished_stop e u _ h) sound =
    let (k, there, _, eq) = finish_stop-cases e s t h in
    subst Sound (sym eq) (close_attempt-Sound k e s there sound)
Step-Sound s t (was_reset e idle) sound = reset-Sound e s idle sound

pub Later-Sound : (s : StopState) → Later new_stop_state s → Sound s
Later-Sound s same =
    unfold new_stop_state in ((λ k below. absurd (ground (arith, below))), inl refl)
Later-Sound s (next {t = t} before step) = Step-Sound t s step (Later-Sound t before)

finish_open :
    (k : ℕ) (e : Option GoError) (s : StopState)
    → s.attempt ≡ some k
    → (s.attempts k).done ≡ false
    → (finish_stop e s ≡ some (close_attempt k e s))
      × (await_attempt k (close_attempt k e s) ≡ some e)
finish_open k e s there still_open = (
  unfold finish_stop in ground (arith, there, still_open),
  unfold close_attempt await_attempt in ground arith,
)

-- While a cleanup runs, finishing it does not panic: it publishes the cleanup's error on the current
-- attempt, to everyone who waits for that, and leaves no cleanup running.
pub finish_stop-answers :
    (e : Option GoError) (s : StopState)
    → Later new_stop_state s
    → s.running ≡ true
    → (k : ℕ) × (t : StopState) × (s.attempt ≡ some k)
      × (finish_stop e s ≡ some t)
      × (await_attempt k t ≡ some e)
      × (t.running ≡ false)
finish_stop-answers e s later busy = elim (Later-Sound s later).1 [
  | inl idle ↦ absurd (ground (arith, idle, busy))
  | inr (k, there, _, still_open) ↦
      let (done, answer) = finish_open k e s there still_open in
      (k, close_attempt k e s, there, done, answer, unfold close_attempt in refl)
]

-- The answer of an attempt.
abbrev Answered : ℕ → Option GoError → StopState → Type 0
Answered k r s = (k < s.made) × (await_attempt k s ≡ some r)

new_attempt-Answered :
    (a : StopAttempt) (running : Bool) (k : ℕ) (r : Option GoError) (s : StopState)
    → Answered k r s
    → Answered k r (new_attempt a running s)
unfolding await_attempt
new_attempt-Answered a running k r s (below, h) = (
  ground (arith, below),
  (let other : (k == s.made) ≡ false = ground (arith, below) in ground (arith, other, h)),
)

close_attempt-Answered :
    (j : ℕ) (e : Option GoError) (k : ℕ) (r : Option GoError) (s : StopState)
    → (s.attempts j).done ≡ false
    → Answered k r s
    → Answered k r (close_attempt j e s)
unfolding close_attempt await_attempt
close_attempt-Answered j e k r s still_open (below, h) = elim (Bool-cases (k == j)) [
  | inl equal ↦
      let same_attempt = (==_iff k j).0 equal in
      absurd (unanswered (ap (λ n. (s.attempts n).done) same_attempt ∙ still_open) h)
  | inr other ↦ (below, ground (arith, other, h))
]
  where
    unanswered : (s.attempts k).done ≡ false → await_attempt k s ≢ some r
    unanswered waits h = ground (arith, waits, h)

Step-Answered :
    (k : ℕ) (r : Option GoError) (s t : StopState) → Step s t → Answered k r s → Answered k r t
Step-Answered k r s t (began owned) h = elim (begin-cases owned s) [
  | inl eq ↦ subst (Answered k r) (sym eq) h
  | inr (_, inl eq) ↦
      subst (Answered k r) (sym eq)
        (new_attempt-Answered (record { done = false; err = none }) true k r s h)
  | inr (_, inr eq) ↦
      subst (Answered k r) (sym eq) (
        unfold reset in new_attempt-Answered (record { done = true; err = none }) s.running k r s h)
]
Step-Answered k r s t (finished_stop e u _ fin) h =
    let (j, _, still_open, eq) = finish_stop-cases e s t fin in
    subst (Answered k r) (sym eq) (close_attempt-Answered j e k r s still_open h)
Step-Answered k r s t (was_reset e idle) h =
    unfold reset in new_attempt-Answered (record { done = true; err = e }) s.running k r s h

Later-Answered :
    (k : ℕ) (r : Option GoError) (s t : StopState) → Later s t → Answered k r s → Answered k r t
Later-Answered k r s t same h = h
Later-Answered k r s t (next {t = u} before step) h =
    Step-Answered k r u t step (Later-Answered k r s u before h)

-- An attempt that is answered keeps its answer for good, whatever later stops, retries and resets
-- come to.
pub await_attempt-Later :
    (k : ℕ) (r : Option GoError) (s t : StopState)
    → k < s.made
    → await_attempt k s ≡ some r
    → Later s t
    → await_attempt k t ≡ some r
await_attempt-Later k r s t made answered later = (Later-Answered k r s t later (made, answered)).1
