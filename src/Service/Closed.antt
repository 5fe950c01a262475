-- ===== src/Service/Closed.antt =====
-- pkg/bridge/service.go: what a Stop of the service confirms.
use aries.Base.{
  true, false, ◌&&◌, not, [], ◌∷◌, Option, none, some, ◌≡◌, ◌≢◌, ◌⊎◌, inl, inr, refl, sym, subst,
  arith, Bool-cases, Option-cases,
}
use aries.Core.Errors.{GoError, join, non_nil}
use aries.Session.Stop.{Host, Session}
use aries.Service.State.{closed, is_blank, Service}
use aries.Service.Start.{Runtime, ServiceOutcome}
use aries.Service.Stop.{failure_history, with_history, close_runtime, close_control, remove_runtime}

-- A session with nothing left to release or to collect.
abbrev pub Settled : Session → Type 0
Settled s = (s.registered && not (s.is_released && s.collected)) ≡ false

-- The runtime is removed, if there was one, the connection closed and the transport closed.
abbrev pub Released : Service → Type 0
Released s =
    ((not (is_blank s.runtime_id) && not s.removed) ≡ false)
    × (s.connected ≡ false)
    × (s.runtime_closed ≡ true)

with_history-ne-none : (s : Service) (e : GoError) → with_history s e ≢ none
unfolding join
with_history-ne-none s e h = each s.allocation_err s.shutdown_err h
  where
    each : (a b : Option GoError) → join (non_nil (a ∷ b ∷ some e ∷ [])) ≢ none
    each none none h = cc
    each none (some y) h = cc
    each (some x) b h = cc

module _ {W : Type 0} (runtime : Runtime W) (sessions : Session → Host W) where
  -- A Stop that has begun: closed with all released, or closing with an error.
  abbrev pub IsStopped : Service → ServiceOutcome W → Type 0
  IsStopped s (s', w, failure) =
      (s'.sessions ≡ s.sessions)
      × (s'.allocation_err ≡ s.allocation_err)
      × (s'.shutdown_err ≡ s.shutdown_err)
      × (((s'.phase ≡ closed) × Released s' × (failure ≡ join (non_nil (failure_history s'))))
          ⊎ ((s'.phase ≡ s.phase) × (failure ≢ none)))

  close_runtime-IsStopped :
      (s : Service) (w : W)
      → (not (is_blank s.runtime_id) && not s.removed) ≡ false
      → s.connected ≡ false
      → IsStopped s (close_runtime runtime sessions s w)
  close_runtime-IsStopped s w gone apart = elim (Bool-cases s.runtime_closed) [
    | inl already ↦
        subst (IsStopped s) (sym (again already))
          (refl, refl, refl, inl (refl, (gone, apart, already), refl))
    | inr still_open ↦ elim (Option-cases (runtime.close w).1) [
      | inr (e, h) ↦
          subst (IsStopped s) (sym (fails still_open e h))
            (refl, refl, refl, inr (refl, with_history-ne-none s e))
      | inl h ↦
          subst (IsStopped s) (sym (closes still_open h))
            (refl, refl, refl, inl (refl, (gone, apart, refl), refl))
    ]
  ]
    where
      again :
          s.runtime_closed ≡ true
          → close_runtime runtime sessions s w
            ≡ (record s { phase = closed }, w, join (non_nil (failure_history s)))
      again already = unfold close_runtime in ground (arith, already)

      fails :
          s.runtime_closed ≡ false
          → (e : GoError) → (runtime.close w).1 ≡ some e
          → close_runtime runtime sessions s w ≡ (s, (runtime.close w).0, with_history s e)
      fails still_open e h = unfold close_runtime in ground (arith, still_open, h)

      closes :
          s.runtime_closed ≡ false
          → (runtime.close w).1 ≡ none
          → close_runtime runtime sessions s w ≡ (
            record s { runtime_closed = true; phase = closed },
            (runtime.close w).0,
            join (non_nil (failure_history s)),
          )
      closes still_open h = unfold close_runtime in ground (arith, still_open, h)

  close_control-IsStopped :
      (s : Service) (w : W)
      → (not (is_blank s.runtime_id) && not s.removed) ≡ false
      → IsStopped s (close_control runtime sessions s w)
  close_control-IsStopped s w gone = elim (Bool-cases s.connected) [
    | inr apart ↦ subst (IsStopped s) (sym (skips apart)) (close_runtime-IsStopped s w gone apart)
    | inl linked ↦ elim (Option-cases (runtime.close_connection w).1) [
      | inr (e, h) ↦
          subst (IsStopped s) (sym (fails linked e h))
            (refl, refl, refl, inr (refl, with_history-ne-none s e))
      | inl h ↦ subst (IsStopped s) (sym (goes_on linked h)) (
          close_runtime-IsStopped (record s { connected = false }) (runtime.close_connection w).0
            gone refl)
    ]
  ]
    where
      skips :
          s.connected ≡ false
          → close_control runtime sessions s w ≡ close_runtime runtime sessions s w
      skips apart = unfold close_control in ground (arith, apart)

      fails :
          s.connected ≡ true
          → (e : GoError) → (runtime.close_connection w).1 ≡ some e
          → close_control runtime sessions s w
            ≡ (s, (runtime.close_connection w).0, with_history s e)
      fails linked e h = unfold close_control in ground (arith, linked, h)

      goes_on :
          s.connected ≡ true
          → (runtime.close_connection w).1 ≡ none
          → close_control runtime sessions s w
            ≡ close_runtime runtime sessions
                (record s { connected = false })
                (runtime.close_connection w).0
      goes_on linked h = unfold close_control in ground (arith, linked, h)

  pub remove_runtime-IsStopped :
      (s : Service) (w : W) → IsStopped s (remove_runtime runtime sessions s w)
  remove_runtime-IsStopped s w = elim (Bool-cases (not (is_blank s.runtime_id) && not s.removed)) [
    | inr gone ↦ subst (IsStopped s) (sym (skips gone)) (close_control-IsStopped s w gone)
    | inl held ↦ elim (Option-cases (runtime.stop s.runtime_id w).1) [
      | inr (e, h) ↦
          subst (IsStopped s) (sym (fails held e h))
            (refl, refl, refl, inr (refl, with_history-ne-none s e))
      | inl h ↦ subst (IsStopped s) (sym (goes_on held h)) (
          close_control-IsStopped (record s { removed = true }) (runtime.stop s.runtime_id w).0
            (ground arith))
    ]
  ]
    where
      skips :
          (not (is_blank s.runtime_id) && not s.removed) ≡ false
          → remove_runtime runtime sessions s w ≡ close_control runtime sessions s w
      skips gone = unfold remove_runtime in ground (arith, gone)

      fails :
          (not (is_blank s.runtime_id) && not s.removed) ≡ true
          → (e : GoError) → (runtime.stop s.runtime_id w).1 ≡ some e
          → remove_runtime runtime sessions s w
            ≡ (s, (runtime.stop s.runtime_id w).0, with_history s e)
      fails held e h = unfold remove_runtime in ground (arith, held, h)

      goes_on :
          (not (is_blank s.runtime_id) && not s.removed) ≡ true
          → (runtime.stop s.runtime_id w).1 ≡ none
          → remove_runtime runtime sessions s w
            ≡ close_control runtime sessions
                (record s { removed = true })
                (runtime.stop s.runtime_id w).0
      goes_on held h = unfold remove_runtime in ground (arith, held, h)
