-- ===== src/Service/Ready.antt =====
-- pkg/bridge/service.go: the loop of `Start` ends, and what it ends with.
use aries.Base.{
  ℕ, zero, suc, ℤ, Bool, true, false, [], ◌∷◌, Option, none, some, if◌then◌else◌, Bytes, Result, ok,
  err, ◌≡◌, ◌≢◌, ◌⊎◌, inl, inr, ◌≤◌, ◌<◌, refl, sym, ap, subst, ◌∙◌, arith,
}
use aries.Core.Errors.{GoError, join, non_nil}
use aries.Service.State.{running, Service, RuntimeRequest}
use aries.Service.Start.{
  Runtime, ServiceOutcome, exited, Turn, answers, polls, ask_running, check_health, connect, dial,
  readiness_turn, after_poll, await_control,
}

-- The time that a context leaves, as the number of polls before its deadline: a poll that returns
-- without an error takes one, and no call gives any back.
pub record Clock {W : Type 0} (runtime : Runtime W) (left : W → ℕ) : Type 0 where
  pub poll_takes : (w : W) → (runtime.wait_poll w).1 ≡ none → left (runtime.wait_poll w).0 < left w
  pub address_left : (id : Bytes) (port : ℤ) (w : W) → left (runtime.address id port w).0 ≤ left w
  pub new_client_left : (address : Bytes) (w : W) → left (runtime.new_client address w).0 ≤ left w
  pub serving_left : (w : W) → left (runtime.serving w).0 ≤ left w
  pub close_connection_left : (w : W) → left (runtime.close_connection w).0 ≤ left w
  pub is_live_left : (id : Bytes) (w : W) → left (runtime.is_live id w).0 ≤ left w
  pub upload_left :
      (id dir files : Bytes) (w : W) → left (runtime.upload_archive id dir files w).0 ≤ left w
  pub validate_left :
      (id : Bytes) (r : RuntimeRequest) (w : W) → left (runtime.validate id r w).0 ≤ left w
  pub start_left : (id : Bytes) (w : W) → left (runtime.start id w).0 ≤ left w
  pub record_left : (s : Service) (w : W) → left (runtime.record_runtime s w).0 ≤ left w
  pub create_left : (r : RuntimeRequest) (w : W) → left (runtime.create r w).0 ≤ left w
  pub make_dir_left : (dir : Bytes) (w : W) → left (runtime.make_dir dir w).0 ≤ left w
  pub nonce_left : (w : W) → left (runtime.nonce w).0 ≤ left w

module _ {W : Type 0} (runtime : Runtime W) (left : W → ℕ) (clock : Clock runtime left) where
  -- The world behind a health check that was answered with SERVING.
  abbrev pub Served : W → Type 0
  Served w = (w0 : W) × ((runtime.serving w0).0 ≡ w) × ((runtime.serving w0).1 ≡ true)

  -- What follows `Create` neither loses the runtime's identity nor an unconfirmed allocation; it
  -- ends running, connected and served, or with an error and without a connection.
  abbrev pub IsEnded : Service → ServiceOutcome W → Type 0
  IsEnded s (s', w, failure) =
      (s'.runtime_id ≡ s.runtime_id)
      × (s'.allocation_err ≡ s.allocation_err)
      × (((failure ≡ none) × (s'.phase ≡ running) × (s'.connected ≡ true) × Served w)
          ⊎ ((failure ≢ none) × (s'.phase ≡ s.phase) × (s'.connected ≡ false)))

  abbrev pub EndsIn : Service → Option (ServiceOutcome W) → Type 0
  EndsIn s result = (outcome : ServiceOutcome W) × (result ≡ some outcome) × IsEnded s outcome

  pub failed-EndsIn :
      (e : GoError) (s : Service) (w : W) → s.connected ≡ false → EndsIn s (some (s, w, some e))
  failed-EndsIn e s w apart = ((s, w, some e), refl, (refl, refl, inr ((λ h. cc), refl, apart)))

  abbrev GoodTurn : Service → W → Turn runtime → Type 0
  GoodTurn s w (answers outcome) = IsEnded s outcome
  GoodTurn s w (polls s1 w1) = (s1 ≡ s) × (left w1 ≤ left w)

  exited-ne-none : (failure : Option GoError) → join (non_nil (some exited ∷ failure ∷ [])) ≢ none
  unfolding join
  exited-ne-none none h = cc
  exited-ne-none (some e) h = cc

  ask_running-GoodTurn :
      (s : Service) (w : W) → s.connected ≡ false → GoodTurn s w (ask_running runtime s w)
  ask_running-GoodTurn s w apart = unfold ask_running in each failure live
    where
      w1 : W
      w1 = (runtime.is_live s.runtime_id w).0

      live : Bool
      live = (runtime.is_live s.runtime_id w).1

      failure : Option GoError
      failure = (runtime.is_live s.runtime_id w).2

      dead : Turn runtime
      dead = answers (s, w1, join (non_nil (some exited ∷ failure ∷ [])))

      gone : GoodTurn s w dead
      gone = (refl, refl, inr (exited-ne-none failure, refl, apart))

      each :
          (f : Option GoError) (b : Bool)
          → GoodTurn s w (elim f [ some e ↦ dead | none ↦ if b then polls s w1 else dead ])
      each (some e) b = gone
      each none true = (refl, clock.is_live_left s.runtime_id w)
      each none false = gone

  GoodTurn-le :
      (s : Service) (w w1 : W) (t : Turn runtime)
      → left w1 ≤ left w
      → GoodTurn s w1 t
      → GoodTurn s w t
  GoodTurn-le s w w1 (answers outcome) le good = good
  GoodTurn-le s w w1 (polls s1 w2) le (same, fewer) = (same, ground (arith, le, fewer))

  check_health-GoodTurn :
      (s : Service) (w : W) → s.connected ≡ false → GoodTurn s w (check_health runtime s w)
  check_health-GoodTurn s w apart = unfold check_health in each (runtime.serving w).1 refl
    where
      w1 : W
      w1 = (runtime.serving w).0

      w2 : W
      w2 = (runtime.close_connection w1).0

      fewer : left w2 ≤ left w
      fewer = ground (arith, clock.serving_left w, clock.close_connection_left w1)

      each :
          (b : Bool)
          → (runtime.serving w).1 ≡ b
          → GoodTurn s w (
              if b
              then answers (record s { phase = running; connected = true }, w1, none)
              else ask_running runtime s w2)
      each true eq = (refl, refl, inl (refl, refl, refl, (w, refl, eq)))
      each false eq =
          GoodTurn-le s w w2 (ask_running runtime s w2) fewer (ask_running-GoodTurn s w2 apart)

  connect-GoodTurn :
      (failure : Option GoError) (s : Service) (w : W)
      → s.connected ≡ false
      → GoodTurn s w (connect runtime failure s w)
  connect-GoodTurn (some e) s w apart = (refl, refl, inr ((λ h. cc), refl, apart))
  connect-GoodTurn none s w apart = check_health-GoodTurn s w apart

  dial-GoodTurn :
      (address : Result GoError Bytes) (s : Service) (w : W)
      → s.connected ≡ false
      → GoodTurn s w (dial runtime address s w)
  dial-GoodTurn (err e) s w apart = ask_running-GoodTurn s w apart
  dial-GoodTurn (ok address) s w apart =
      let (w1, failure) = runtime.new_client address w in
      GoodTurn-le s w w1 (connect runtime failure s w1) (clock.new_client_left address w)
        (connect-GoodTurn failure s w1 apart)

  readiness_turn-GoodTurn :
      (s : Service) (w : W) → s.connected ≡ false → GoodTurn s w (readiness_turn runtime s w)
  unfolding readiness_turn
  readiness_turn-GoodTurn s w apart =
      let port = s.options.launch.service_port in
      let (w1, address) = runtime.address s.runtime_id port w in
      GoodTurn-le s w w1 (dial runtime address s w1) (clock.address_left s.runtime_id port w)
        (dial-GoodTurn address s w1 apart)

  -- One turn, given that the loop ends from every world with less time.
  await_control-suc :
      (fuel : ℕ) (s : Service) (w : W)
      → ((w2 : W) → left w2 < left w → EndsIn s (await_control runtime fuel s w2))
      → s.connected ≡ false
      → EndsIn s (await_control runtime (suc fuel) s w)
  await_control-suc fuel s w later apart =
      each (readiness_turn runtime s w) refl (readiness_turn-GoodTurn s w apart)
    where
      polled :
          (w1 : W) (failure : Option GoError)
          → (runtime.wait_poll w1).1 ≡ failure
          → left w1 ≤ left w
          → EndsIn s (
              after_poll runtime failure s
                (runtime.wait_poll w1).0
                (await_control runtime fuel s (runtime.wait_poll w1).0))
      polled w1 (some e) eq fewer = failed-EndsIn e s (runtime.wait_poll w1).0 apart
      polled w1 none eq fewer =
          later (runtime.wait_poll w1).0 (ground (arith, fewer, clock.poll_takes w1 eq))

      polling : Service → W → Option (ServiceOutcome W)
      polling s1 w1 =
          after_poll runtime (runtime.wait_poll w1).1 s1 (runtime.wait_poll w1).0
            (await_control runtime fuel s1 (runtime.wait_poll w1).0)

      ended :
          (outcome : ServiceOutcome W)
          → readiness_turn runtime s w ≡ answers outcome
          → await_control runtime (suc fuel) s w ≡ some outcome
      ended outcome eq = unfold await_control in ground (arith, eq)

      goes_on :
          (s1 : Service) (w1 : W)
          → readiness_turn runtime s w ≡ polls s1 w1
          → await_control runtime (suc fuel) s w ≡ polling s1 w1
      goes_on s1 w1 eq = unfold await_control in ground (arith, eq)

      each :
          (t : Turn runtime)
          → readiness_turn runtime s w ≡ t
          → GoodTurn s w t
          → EndsIn s (await_control runtime (suc fuel) s w)
      each (answers outcome) eq good = (outcome, ended outcome eq, good)
      each (polls s1 w1) eq (same, fewer) =
          subst (EndsIn s) (sym (goes_on s1 w1 eq ∙ ap (λ t. polling t w1) same))
            (polled w1 (runtime.wait_poll w1).1 refl fewer)

  -- With more fuel than polls are left, the loop ends.
  pub await_control-EndsIn :
      (fuel : ℕ) (s : Service) (w : W)
      → left w < fuel
      → s.connected ≡ false
      → EndsIn s (await_control runtime fuel s w)
  await_control-EndsIn zero s w below apart = absurd (ground (arith, below))
  await_control-EndsIn (suc fuel) s w below apart =
      await_control-suc fuel s w
        (λ w2 fewer. await_control-EndsIn fuel s w2 (ground (arith, below, fewer)) apart) apart
