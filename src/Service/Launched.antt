-- ===== src/Service/Launched.antt =====
-- pkg/bridge/service.go: what follows the creation of the bridge's runtime.
use aries.Base.{
  ℕ, false, [], ◌∷◌, Option, none, some, Bytes, Result, ok, err, ◌≡◌, ◌≢◌, inr, ◌<◌, refl, arith,
}
use aries.Core.Errors.{GoError, join, non_nil}
use aries.Service.State.{Service, RuntimeRequest, child_config}
use aries.Service.Start.{
  Runtime, ServiceOutcome, or_return, launch_runtime, pack, configure, record_created,
  await_control,
}
use aries.Service.Ready.{Clock, EndsIn, failed-EndsIn, await_control-EndsIn}

module _ {W : Type 0} (runtime : Runtime W) (left : W → ℕ) (clock : Clock runtime left) where
  or_return-EndsIn :
      (failure : Option GoError) (s : Service) (w : W) (next : Option (ServiceOutcome W))
      → s.connected ≡ false
      → EndsIn runtime left clock s next
      → EndsIn runtime left clock s (or_return runtime failure s w next)
  or_return-EndsIn (some e) s w next apart h = failed-EndsIn runtime left clock e s w apart
  or_return-EndsIn none s w next apart h = h

  launch_runtime-EndsIn :
      (fuel : ℕ) (request : RuntimeRequest) (files : Bytes) (s : Service) (w : W)
      → left w < fuel
      → s.connected ≡ false
      → EndsIn runtime left clock s (launch_runtime runtime fuel request files s w)
  unfolding launch_runtime
  launch_runtime-EndsIn fuel request files s w below apart =
      let (w1, no_upload) = runtime.upload_archive s.runtime_id request.workdir files w in
      let (w2, invalid) = runtime.validate s.runtime_id request w1 in
      let (w3, unstarted) = runtime.start s.runtime_id w2 in
      let less : left w3 < fuel = ground (
        arith,
        below,
        clock.upload_left s.runtime_id request.workdir files w,
        clock.validate_left s.runtime_id request w1,
        clock.start_left s.runtime_id w2,
      ) in
      let loop = await_control runtime fuel s w3 in
      or_return-EndsIn no_upload s w1
        (or_return runtime invalid s w2 (or_return runtime unstarted s w3 loop)) apart
        (or_return-EndsIn invalid s w2 (or_return runtime unstarted s w3 loop) apart (
          or_return-EndsIn unstarted s w3 loop apart
            (await_control-EndsIn runtime left clock fuel s w3 less apart)))

  pack-EndsIn :
      (fuel : ℕ) (request : RuntimeRequest) (files : Result GoError Bytes) (s : Service) (w : W)
      → left w < fuel
      → s.connected ≡ false
      → EndsIn runtime left clock s (pack runtime fuel request files s w)
  pack-EndsIn fuel request (err e) s w below apart = failed-EndsIn runtime left clock e s w apart
  pack-EndsIn fuel request (ok files) s w below apart =
      launch_runtime-EndsIn fuel request files s w below apart

  configure-EndsIn :
      (fuel : ℕ) (request : RuntimeRequest) (data' : Result GoError Bytes) (s : Service) (w : W)
      → left w < fuel
      → s.connected ≡ false
      → EndsIn runtime left clock s (configure runtime fuel request data' s w)
  configure-EndsIn fuel request (err e) s w below apart =
      failed-EndsIn runtime left clock e s w apart
  configure-EndsIn fuel request (ok data') s w below apart =
      pack-EndsIn fuel request (runtime.archive data') s w below apart

  -- What a Create that succeeded is followed by.
  pub record_created-EndsIn :
      (fuel : ℕ) (request : RuntimeRequest) (s : Service) (w : W)
      → left w < fuel
      → s.connected ≡ false
      → EndsIn runtime left clock s (record_created runtime fuel request none s w)
  record_created-EndsIn fuel request s w below apart =
      unfold record_created in each (runtime.record_runtime s w).1
    where
      w1 : W
      w1 = (runtime.record_runtime s w).0

      next : Option (ServiceOutcome W)
      next = configure runtime fuel request (runtime.encode (child_config s.options)) s w1

      each :
          (unrecorded : Option GoError)
          → EndsIn runtime left clock s (elim unrecorded [
            | some e ↦ some (s, w1, join (non_nil (none ∷ some e ∷ [])))
            | none ↦ or_return runtime none s w1 next
          ])
      each (some e) = (
        (s, w1, join (non_nil (some e ∷ []))),
        refl,
        (refl, refl, inr (some_fails e, refl, apart)),
      )
        where
          some_fails : (e : GoError) → join (non_nil (some e ∷ [])) ≢ none
          some_fails e h = unfold join in cc
      each none =
          configure-EndsIn fuel request (runtime.encode (child_config s.options)) s w1
            (ground (arith, below, clock.record_left s w)) apart

  -- What a Create with an error is followed by.
  pub record_created_fails :
      (fuel : ℕ) (request : RuntimeRequest) (e : GoError) (s : Service) (w : W)
      → (failure : Option GoError) × (record_created runtime fuel request (some e) s w
          ≡ some (s, (runtime.record_runtime s w).0, failure))
        × (failure ≢ none)
  record_created_fails fuel request e s w =
      unfold record_created join in each (runtime.record_runtime s w).1
    where
      w1 : W
      w1 = (runtime.record_runtime s w).0

      next : Option (ServiceOutcome W)
      next = configure runtime fuel request (runtime.encode (child_config s.options)) s w1

      each :
          (unrecorded : Option GoError)
          → (failure : Option GoError) × ((elim unrecorded [
            | some u ↦ some (s, w1, join (non_nil (some e ∷ some u ∷ [])))
            | none ↦ or_return runtime (some e) s w1 next
          ])
              ≡ some (s, w1, failure))
            × (failure ≢ none)
      each (some u) = (join (non_nil (some e ∷ some u ∷ [])), refl, (λ h. unfold join in cc))
      each none = (some e, refl, (λ h. cc))
