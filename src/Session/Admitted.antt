-- ===== src/Session/Admitted.antt =====
-- pkg/bridge/admission.go: what `registerSandbox` returns, and how often it submits.
use aries.Base.{
  ℕ, zero, suc, ◌+◌, Bool, true, false, Option, none, some, if◌then◌else◌, Bytes, bytes_eq,
  bytes_eq_iff, Result, ok, err, ◌≡◌, inl, inr, ◌≤◌, ◌<◌, refl, sym, subst, arith, Bool-cases,
}
use aries.Core.Errors.{GoError, message}
use aries.Control.State.{Access}
use aries.Session.Admission.{
  Client, is_uncertain, is_not_found, is_registering, validate_access, Verdict, settles, asks_again,
  judge_access, with_result, judge_result, judge_turn, resubmit_missing, ask_again, polled,
  register_loop, admit_sandbox,
}

-- How a NotFound counts.
abbrev pub missing_of : {W : Type 0} → Client W → Result GoError (Option Access) → ℕ
missing_of client (ok a) = 0
missing_of client (err e) = if is_not_found (client.code e) then 1 else 0

-- The registrations sent, the lookups answered by NotFound, and the polls that the context leaves:
-- a poll that returns without an error takes one, and no call gives any back.
pub record Watch {W : Type 0} (client : Client W) (sent missing left : W → ℕ) : Type 0 where
  pub register_sent : (w : W) → sent (client.register_sandbox w).0 ≡ suc (sent w)
  pub register_missing : (w : W) → missing (client.register_sandbox w).0 ≡ missing w
  pub register_left : (w : W) → left (client.register_sandbox w).0 ≤ left w
  pub get_sent : (w : W) → sent (client.get_sandbox w).0 ≡ sent w
  pub get_missing :
      (w : W)
      → missing (client.get_sandbox w).0 ≡ missing w + missing_of client (client.get_sandbox w).1
  pub get_left : (w : W) → left (client.get_sandbox w).0 ≤ left w
  pub poll_sent : (w : W) → sent (client.wait_poll w).0 ≡ sent w
  pub poll_missing : (w : W) → missing (client.wait_poll w).0 ≡ missing w
  pub poll_left : (w : W) → (client.wait_poll w).1 ≡ none → left (client.wait_poll w).0 < left w

-- An access is the session's own and is no longer being registered.
abbrev pub IsOwn : Bytes → Result GoError Access → Type 0
IsOwn id (ok a) = (a.sandbox_id ≡ id) × (is_registering a.state ≡ false)
IsOwn id (err e) = Unit

abbrev GoodVerdict : Bytes → Verdict → Type 0
GoodVerdict id (settles answer) = IsOwn id answer
GoodVerdict id asks_again = Unit

judge_access-GoodVerdict :
    (id : Bytes) (a : Access) → a.sandbox_id ≡ id → GoodVerdict id (judge_access (ok a))
judge_access-GoodVerdict id a own = each (is_registering a.state) refl
  where
    each :
        (b : Bool)
        → is_registering a.state ≡ b
        → GoodVerdict id (if b then asks_again else settles (ok a))
    each true eq = tt
    each false eq = (own, eq)

validated-GoodVerdict :
    (id : Bytes) (a : Option Access) → GoodVerdict id (judge_access (validate_access id a))
validated-GoodVerdict id none = unfold validate_access in tt
validated-GoodVerdict id (some a) = elim (Bool-cases (bytes_eq a.sandbox_id id)) [
  | inl own ↦
      subst (λ r. GoodVerdict id (judge_access r)) (sym (accepted own))
        (judge_access-GoodVerdict id a ((bytes_eq_iff a.sandbox_id id).0 own))
  | inr other ↦ subst (λ r. GoodVerdict id (judge_access r)) (sym (refused other)) tt
]
  where
    accepted : bytes_eq a.sandbox_id id ≡ true → validate_access id (some a) ≡ ok a
    accepted own = unfold validate_access in ground (arith, own)

    refused :
        bytes_eq a.sandbox_id id ≡ false
        → validate_access id (some a) ≡ err (message "bridge sandbox identity differs")
    refused other = unfold validate_access in ground (arith, other)

module _ {W : Type 0} (client : Client W) (sent missing left : W → ℕ)
    (watch : Watch client sent missing left) where
  judge_result-GoodVerdict :
      (id : Bytes) (result : Result GoError (Option Access))
      → GoodVerdict id (judge_result client id result)
  judge_result-GoodVerdict id (ok a) = unfold judge_result in validated-GoodVerdict id a
  judge_result-GoodVerdict id (err e) = unfold judge_result in each (is_uncertain (client.code e))
    where
      each : (b : Bool) → GoodVerdict id (if b then asks_again else settles (err e))
      each true = tt
      each false = tt

  judge_turn-GoodVerdict :
      (id : Bytes) (result : Result GoError (Option Access)) (w : W)
      → GoodVerdict id (judge_turn client id result w)
  judge_turn-GoodVerdict id result w = unfold judge_turn in each (client.context_err w)
    where
      each :
          (ended : Option GoError)
          → GoodVerdict id (elim ended [
            | some e ↦ settles (err (with_result result e))
            | none ↦ judge_result client id result
          ])
      each (some e) = tt
      each none = judge_result-GoodVerdict id result

  -- A lookup that is answered by NotFound submits once more, and no other does.
  ask_again-Counts :
      (w : W)
      → (sent (ask_again client w).0 + missing w ≡ sent w + missing (ask_again client w).0)
        × (left (ask_again client w).0 ≤ left w)
  ask_again-Counts w = unfold ask_again in each (client.get_sandbox w).1 (watch.get_missing w)
    where
      w1 : W
      w1 = (client.get_sandbox w).0

      each :
          (result : Result GoError (Option Access))
          → missing w1 ≡ missing w + missing_of client result
          → (sent (resubmit_missing client result w1).0 + missing w
              ≡ sent w + missing (resubmit_missing client result w1).0)
            × (left (resubmit_missing client result w1).0 ≤ left w)
      each (ok a) eq = (ground (arith, eq, watch.get_sent w), watch.get_left w)
      each (err e) eq = elim (Bool-cases (is_not_found (client.code e))) [
        | inl missed ↦ (
          ground (
            arith,
            eq,
            missed,
            watch.get_sent w,
            watch.register_sent w1,
            watch.register_missing w1,
          ),
          ground (arith, missed, watch.get_left w, watch.register_left w1),
        )
        | inr other ↦
            (ground (arith, eq, other, watch.get_sent w), ground (arith, other, watch.get_left w))
      ]

  -- What the loop returns.
  abbrev Admits : Bytes → W → Option (W × Result GoError Access) → Type 0
  Admits id w result =
      (w' : W) × (answer : Result GoError Access) × (result ≡ some (w', answer))
      × IsOwn id answer
      × (sent w' + missing w ≡ sent w + missing w')

  Admits-ask_again :
      (id : Bytes) (w w1 : W) (result : Option (W × Result GoError Access))
      → sent w1 + missing w ≡ sent w + missing w1
      → Admits id w1 result
      → Admits id w result
  Admits-ask_again id w w1 result counts (w', answer, eq, own, more) =
      (w', answer, eq, own, ground (arith, counts, more))

  -- One turn, given that the loop admits from every world with less time.
  register_loop-suc :
      (fuel : ℕ) (id : Bytes) (result : Result GoError (Option Access)) (w : W)
      → ((next : Result GoError (Option Access)) (w2 : W)
          → left w2 < left w
          → Admits id w2 (register_loop client fuel id next w2))
      → Admits id w (register_loop client (suc fuel) id result w)
  register_loop-suc fuel id result w later =
      each (judge_turn client id result w) refl (judge_turn-GoodVerdict id result w)
    where
      w1 : W
      w1 = (client.wait_poll w).0

      w2 : W
      w2 = (ask_again client w1).0

      rest : Option (W × Result GoError Access)
      rest = register_loop client fuel id (ask_again client w1).1 w2

      polled-Admits :
          (failure : Option GoError)
          → (client.wait_poll w).1 ≡ failure
          → Admits id w (polled client failure w1 rest)
      polled-Admits (some e) eq =
          (w1, err e, refl, tt, ground (arith, watch.poll_sent w, watch.poll_missing w))
      polled-Admits none eq =
          let (counts, fewer) = ask_again-Counts w1 in
          Admits-ask_again id w w2 rest
            (ground (arith, counts, watch.poll_sent w, watch.poll_missing w))
            (later (ask_again client w1).1 w2 (ground (arith, fewer, watch.poll_left w eq)))

      answered :
          (answer : Result GoError Access)
          → judge_turn client id result w ≡ settles answer
          → register_loop client (suc fuel) id result w ≡ some (w, answer)
      answered answer eq = unfold register_loop in ground (arith, eq)

      goes_on :
          judge_turn client id result w ≡ asks_again
          → register_loop client (suc fuel) id result w
            ≡ polled client (client.wait_poll w).1 w1 rest
      goes_on eq = unfold register_loop in ground (arith, eq)

      each :
          (v : Verdict)
          → judge_turn client id result w ≡ v
          → GoodVerdict id v
          → Admits id w (register_loop client (suc fuel) id result w)
      each (settles answer) eq own = (w, answer, answered answer eq, own, refl)
      each asks_again eq own =
          subst (Admits id w) (sym (goes_on eq)) (polled-Admits (client.wait_poll w).1 refl)

  register_loop-Admits :
      (fuel : ℕ) (id : Bytes) (result : Result GoError (Option Access)) (w : W)
      → left w < fuel
      → Admits id w (register_loop client fuel id result w)
  register_loop-Admits zero id result w below = absurd (ground (arith, below))
  register_loop-Admits (suc fuel) id result w below =
      register_loop-suc fuel id result w
        (λ next w2 fewer. register_loop-Admits fuel id next w2 (ground (arith, below, fewer)))

  pub admit_sandbox_ends :
      (fuel : ℕ) (id : Bytes) (w : W)
      → left w < fuel
      → (w' : W) × (answer : Result GoError Access) × (admit_sandbox client fuel id w
          ≡ some (w', answer))
  unfolding admit_sandbox
  admit_sandbox_ends fuel id w below =
      let (w1, result) = client.register_sandbox w in
      let (w', answer, eq, _, _) =
        register_loop-Admits fuel id result w1 (ground (arith, below, watch.register_left w)) in
      (w', answer, eq)

  -- With more fuel than the polls that its context leaves, the registration returns. It submitted
  -- the binding once, and once more for each lookup that was answered by NotFound; and an access
  -- that it returns is the session's own and not in the state REGISTERING.
  pub admit_sandbox_returns :
      (id : Bytes) (w : W)
      → (w' : W) × (answer : Result GoError Access) × (admit_sandbox client (suc (left w)) id w
          ≡ some (w', answer))
        × IsOwn id answer
        × (sent w' + missing w ≡ suc (sent w) + missing w')
  unfolding admit_sandbox
  admit_sandbox_returns id w =
      let (w1, result) = client.register_sandbox w in
      let (w', answer, eq, own, counts) =
        register_loop-Admits (suc (left w)) id result w1 (ground (arith, watch.register_left w)) in
      (w', answer, eq, own, ground (arith, counts, watch.register_sent w, watch.register_missing w))
