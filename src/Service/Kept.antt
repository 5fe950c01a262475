-- ===== src/Service/Kept.antt =====
-- pkg/bridge/service.go: what a Start leaves of the bridge's runtime, and that it returns.
use aries.Base.{
  ℕ, suc, Bool, true, false, ◌&&◌, [], Option, none, some, if◌then◌else◌, Bytes, bytes_eq,
  bytes_eq_iff, Result, ok, err, is_none, ◌≡◌, ◌≢◌, ◌⊎◌, inl, inr, ◌<◌, refl, ap, ◌∙◌, arith,
  Bool-cases,
}
use aries.Core.Errors.{GoError, allocation_unconfirmed, errors_is}
use aries.Service.State.{
  ServiceOptions, starting, running, is_blank, Service, new_service_of, RuntimeRequest,
  runtime_request,
}
use aries.Service.Start.{
  Runtime, ServiceOutcome, or_return, record_created, empty_identity, keep_identity, create_runtime,
  with_nonce, begin_start, service_start,
}
use aries.Service.Launched.{record_created-EndsIn, record_created_fails}
use aries.Service.Ready.{Clock, Served, IsEnded}

-- What the deployment promises of the bridge's runtime: `Create` alone makes it, and an error of it
-- without an identity and without ErrAllocationUnconfirmed means that it made none.
pub record Promises {W : Type 0} (runtime : Runtime W) (exists : W → Bool) : Type 0 where
  pub make_dir_quiet : (dir : Bytes) (w : W) → exists (runtime.make_dir dir w).0 ≡ exists w
  pub nonce_quiet : (w : W) → exists (runtime.nonce w).0 ≡ exists w
  pub record_quiet : (s : Service) (w : W) → exists (runtime.record_runtime s w).0 ≡ exists w
  pub create_confirms :
      (r : RuntimeRequest) (w : W)
      → exists w ≡ false
      → (runtime.create r w).1 ≡ []
      → is_none (runtime.create r w).2 ≡ false
      → errors_is (runtime.create r w).2 allocation_unconfirmed ≡ false
      → exists (runtime.create r w).0 ≡ false

module _ {W : Type 0} (runtime : Runtime W) (exists : W → Bool) (left : W → ℕ)
    (promises : Promises runtime exists) (clock : Clock runtime left) where
  -- A runtime that exists has its identity kept, or the error of its allocation.
  abbrev pub IsKept : Service → W → Type 0
  IsKept s w = (exists w && (is_blank s.runtime_id && is_none s.allocation_err)) ≡ false

  -- The identity is one that the deployment's `Create` returned.
  abbrev pub CreatedBy : Bytes → Type 0
  CreatedBy id = (r : RuntimeRequest) × (w : W) × (id ≡ (runtime.create r w).1)

  -- A Start that returns: running, connected and served, with an identity; or starting, with an
  -- error.
  abbrev pub IsStarted : ServiceOutcome W → Type 0
  IsStarted (s, w, failure) =
      IsKept s w
      × ((is_blank s.runtime_id ≡ true) ⊎ CreatedBy s.runtime_id)
      × (((failure ≡ none)
            × (s.phase ≡ running)
            × (s.connected ≡ true)
            × Served runtime left clock w
            × (is_blank s.runtime_id ≡ false))
          ⊎ ((failure ≢ none) × (s.phase ≡ starting) × (s.connected ≡ false)))

  abbrev pub StartsIn : Option (ServiceOutcome W) → Type 0
  StartsIn result = (outcome : ServiceOutcome W) × (result ≡ some outcome) × IsStarted outcome

  -- A state that has an identity keeps it to the end.
  ended-IsStarted :
      (s : Service) (outcome : ServiceOutcome W)
      → is_blank s.runtime_id ≡ false
      → CreatedBy s.runtime_id
      → s.phase ≡ starting
      → IsEnded runtime left clock s outcome
      → IsStarted outcome
  ended-IsStarted s (s', w, failure) named (r, w0, made) phase (id, alloc, how) =
      let still_named : is_blank s'.runtime_id ≡ false = ap is_blank id ∙ named in
      (
        ground (arith, still_named),
        inr (r, w0, id ∙ made),
        elim how [
          | inl (fine, runs, linked, served) ↦ inl (fine, runs, linked, served, still_named)
          | inr (failed, same, apart) ↦ inr (failed, same ∙ phase, apart)
        ],
      )

  abbrev Fresh : Service → Type 0
  Fresh s =
      (s.phase ≡ starting)
      × (s.connected ≡ false)
      × (s.allocation_err ≡ none)
      × (is_blank s.runtime_id ≡ true)

  abbrev after_create :
      ℕ → RuntimeRequest → Bytes → Option GoError → Service → W → Option (ServiceOutcome W)
  after_create fuel request id refused s w =
      record_created runtime fuel request (keep_identity id refused s).1
        (keep_identity id refused s).0 w

  refused-StartsIn :
      (fuel : ℕ) (request : RuntimeRequest) (id : Bytes) (e : GoError) (s : Service) (w : W)
      → Fresh s
      → CreatedBy id
      → (is_blank id ≡ false)
        ⊎ ((errors_is (some e) allocation_unconfirmed ≡ true) ⊎ (exists w ≡ false))
      → StartsIn (after_create fuel request id (some e) s w)
  refused-StartsIn fuel request id e s w (phase, apart, alloc, blank) made known =
      unfold keep_identity in
      (let (failure, eq, failed) = record_created_fails runtime left clock fuel request e s1 w in
        ((s1, w2, failure), eq, (kept, inr made, inr (failed, phase, apart))))
    where
      s1 : Service
      s1 = record s {
        runtime_id = id;
        allocation_err =
            if errors_is (some e) allocation_unconfirmed then some e else s.allocation_err;
      }

      w2 : W
      w2 = (runtime.record_runtime s1 w).0

      kept : IsKept s1 w2
      kept = elim known [
        | inl named ↦ ground (arith, named)
        | inr (inl unconfirmed) ↦ ground (arith, unconfirmed)
        | inr (inr absent) ↦ ground (arith, absent, promises.record_quiet s1 w)
      ]

  accepted-StartsIn :
      (fuel : ℕ) (request : RuntimeRequest) (id : Bytes) (s : Service) (w : W)
      → Fresh s
      → CreatedBy id
      → left w < fuel
      → StartsIn (after_create fuel request id none s w)
  accepted-StartsIn fuel request id s w (phase, apart, alloc, blank) made below =
      elim (Bool-cases (is_blank id)) [
        | inl nameless ↦
            let (failure, eq, failed) =
              record_created_fails runtime left clock fuel request empty_identity nameless_state
                w in
            (
              (nameless_state, (runtime.record_runtime nameless_state w).0, failure),
              ap (λ k. record_created runtime fuel request k.1 k.0 w) (has_none nameless) ∙ eq,
              (ground arith, inr made, inr (failed, phase, apart)),
            )
        | inr named ↦
            let (outcome, eq, ended) =
              record_created-EndsIn runtime left clock fuel request named_state w below apart in
            (
              outcome,
              ap (λ k. record_created runtime fuel request k.1 k.0 w) (has_one named) ∙ eq,
              ended-IsStarted named_state outcome named made phase ended,
            )
      ]
    where
      nameless_state : Service
      nameless_state = record s { runtime_id = id; allocation_err = some empty_identity }

      named_state : Service
      named_state = record s { runtime_id = id }

      has_none :
          is_blank id ≡ true → keep_identity id none s ≡ (nameless_state, some empty_identity)
      has_none nameless = unfold keep_identity in ground (arith, nameless)

      has_one : is_blank id ≡ false → keep_identity id none s ≡ (named_state, none)
      has_one named = unfold keep_identity in ground (arith, named)

  create_runtime-StartsIn :
      (fuel : ℕ) (id : Bytes) (s : Service) (w : W)
      → Fresh s
      → exists w ≡ false
      → left w < fuel
      → StartsIn (create_runtime runtime fuel id s w)
  create_runtime-StartsIn fuel id s w fresh absent below =
      unfold create_runtime in each refused refl
    where
      request : RuntimeRequest
      request = runtime_request id s.options

      w1 : W
      w1 = (runtime.create request w).0

      identity : Bytes
      identity = (runtime.create request w).1

      refused : Option GoError
      refused = (runtime.create request w).2

      named : Service
      named = record s { runtime_name = request.name }

      known :
          (e : GoError)
          → refused ≡ some e
          → (is_blank identity ≡ false)
            ⊎ ((errors_is (some e) allocation_unconfirmed ≡ true) ⊎ (exists w1 ≡ false))
      known e eq = elim (Bool-cases (is_blank identity)) [
        | inr some_id ↦ inl some_id
        | inl no_id ↦ elim (Bool-cases (errors_is (some e) allocation_unconfirmed)) [
          | inl unconfirmed ↦ inr (inl unconfirmed)
          | inr confirmed ↦ inr (
              inr (
                promises.create_confirms request w absent ((bytes_eq_iff identity []).0 no_id)
                  (ap is_none eq) (ap (λ r. errors_is r allocation_unconfirmed) eq ∙ confirmed)))
        ]
      ]

      each :
          (r : Option GoError)
          → refused ≡ r
          → StartsIn (after_create fuel request identity r named w1)
      each none eq =
          accepted-StartsIn fuel request identity named w1 fresh (request, w, refl)
            (ground (arith, below, clock.create_left request w))
      each (some e) eq =
          refused-StartsIn fuel request identity e named w1 fresh (request, w, refl) (known e eq)

  -- An error before `Create` leaves the state as it was.
  early-StartsIn :
      (e : GoError) (s : Service) (w : W)
      → Fresh s
      → exists w ≡ false
      → StartsIn (some (s, w, some e))
  early-StartsIn e s w (phase, apart, alloc, blank) absent =
      ((s, w, some e), refl, (ground (arith, absent), inl blank, inr ((λ h. cc), phase, apart)))

  with_nonce-StartsIn :
      (fuel : ℕ) (id : Result GoError Bytes) (s : Service) (w : W)
      → Fresh s
      → exists w ≡ false
      → left w < fuel
      → StartsIn (with_nonce runtime fuel id s w)
  with_nonce-StartsIn fuel (err e) s w fresh absent below = early-StartsIn e s w fresh absent
  with_nonce-StartsIn fuel (ok id) s w fresh absent below =
      create_runtime-StartsIn fuel id s w fresh absent below

  begin_start-StartsIn :
      (fuel : ℕ) (s : Service) (w : W)
      → Fresh s
      → exists w ≡ false
      → left w < fuel
      → StartsIn (begin_start runtime fuel s w)
  begin_start-StartsIn fuel s w fresh absent below =
      unfold begin_start in each (runtime.make_dir dir w).1
    where
      dir : Bytes
      dir = s.options.output_dir

      w1 : W
      w1 = (runtime.make_dir dir w).0

      w2 : W
      w2 = (runtime.nonce w1).0

      id : Result GoError Bytes
      id = (runtime.nonce w1).1

      absent1 : exists w1 ≡ false
      absent1 = promises.make_dir_quiet dir w ∙ absent

      each :
          (no_dir : Option GoError)
          → StartsIn (or_return runtime no_dir s w1 (with_nonce runtime fuel id s w2))
      each (some e) = early-StartsIn e s w1 fresh absent1
      each none =
          with_nonce-StartsIn fuel id s w2 fresh (promises.nonce_quiet w1 ∙ absent1)
            (ground (arith, below, clock.make_dir_left dir w, clock.nonce_left w1))

  -- The Start of a new service returns, with more fuel than the polls that its context leaves. It
  -- ends without an error, running, connected after a health check that was answered with SERVING,
  -- and with the identity of its runtime; or with an error and not running. An identity that it has
  -- is as the deployment's Create returned it. If no runtime existed before, one that exists then
  -- has its identity kept for Stop, or the service keeps the error of an unconfirmed allocation.
  pub service_start-StartsIn :
      (o : ServiceOptions) (w : W)
      → exists w ≡ false
      → StartsIn (service_start runtime (suc (left w)) (new_service_of o) w)
  unfolding service_start
  service_start-StartsIn o w absent =
      begin_start-StartsIn (suc (left w)) (record (new_service_of o) { phase = starting }) w
        (refl, refl, refl, unfold bytes_eq in refl) absent (ground arith)
