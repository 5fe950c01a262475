-- ===== src/Session/Closed.antt =====
-- pkg/bridge/session.go: what a Stop that returns no error has confirmed.
use aries.Base.{
  Bool, true, false, ◌&&◌, ◌||◌, not, List, Option, none, Bytes, Result, ok, err, is_none, ◌≡◌, ◌≢◌,
  ◌⊎◌, refl, arith,
}
use aries.Core.Errors.{GoError, join}
use aries.Control.State.{State, released, Access}
use aries.Session.Stop.{
  Host, Session, expected_evidence, no_artifacts, collect_all, end_collect, collect_evidence,
  release_failed, release_answered, after_release, release_session, stop,
}

-- A registered session without an error is released and its evidence collected.
abbrev pub IsClosed : {W : Type 0} → Session × W × Option GoError → Type 0
IsClosed (s, w, failure) =
    (is_none failure && (s.registered && not (s.is_released && s.collected))) ≡ false

module _ {W : Type 0} (host : Host W) where
  end_collect-IsClosed :
      (s : Session) (outcome : Result GoError (List (Bytes × Bool))) (w : W)
      → s.is_released ≡ true
      → IsClosed (end_collect host s outcome w)
  end_collect-IsClosed s (err e) w h = refl
  end_collect-IsClosed s (ok expected) w h = ground (arith, h)

  collect_evidence-IsClosed :
      (s : Session) (w : W)
      → (s.registered && not s.is_released) ≡ false
      → IsClosed (collect_evidence host s w)
  unfolding collect_evidence
  collect_evidence-IsClosed s w h = ground (
    arith,
    h,
    end_collect-IsClosed s (collect_all host s s.manifest (expected_evidence s) w).1
        (collect_all host s s.manifest (expected_evidence s) w).0,
  )

  release_failed-IsClosed :
      (e : GoError) (s : Session) (running : Bool) (run_err : Option GoError) (w : W)
      → IsClosed (release_failed host e s running run_err w)
  unfolding release_failed join
  release_failed-IsClosed e s running run_err w =
      ground
        (arith, collect_evidence-IsClosed (record s { is_released = true; collected = true }) w)

  release_answered-IsClosed :
      (a : Access) (s : Session) (w : W) → IsClosed (release_answered host a s w)
  unfolding release_answered
  release_answered-IsClosed a s w = ground (
    arith,
    collect_evidence-IsClosed
        (record s {
          is_released = true;
          manifest = a.artifacts;
          collected = s.collected || (not s.exposed && no_artifacts a.artifacts);
        })
        w,
  )

  after_release-IsClosed :
      (s : Session) (outcome : Result GoError Access) (w : W)
      → IsClosed (after_release host s outcome w)
  after_release-IsClosed s (ok a) w = release_answered-IsClosed a s w
  after_release-IsClosed s (err e) w =
      let (w', running, run_err) = host.running w in release_failed-IsClosed e s running run_err w'

  release_session-IsClosed : (s : Session) (w : W) → IsClosed (release_session host s w)
  unfolding release_session
  release_session-IsClosed s w = ground (
    arith,
    after_release-IsClosed s (host.release_sandbox w).1 (host.release_sandbox w).0,
    collect_evidence-IsClosed s w,
  )

  pub stop_closes : (s : Session) (w : W) → IsClosed (stop host s w)
  unfolding stop join
  stop_closes s w = ground (arith, release_session-IsClosed (record s { stopped = true }) w)

  -- What the release of a session answered: the control service released its own sandbox, and
  -- without a failure of its cleanup; or its answer is missing, the bridge does not run any more,
  -- and no task had the session's endpoint.
  abbrev pub Confirmed : Session → W → Type 0
  Confirmed s w =
      ((a : Access) × ((host.release_sandbox w).1 ≡ ok a)
        × (a.sandbox_id ≡ s.sandbox_id)
        × (a.state ≡ released)
        × (a.cleanup_error ≡ none))
      ⊎ ((e : GoError) × ((host.release_sandbox w).1 ≡ err e)
          × ((host.running (host.release_sandbox w).0).1 ≡ false)
          × ((host.running (host.release_sandbox w).0).2 ≡ none)
          × (s.exposed ≡ false))

  abbrev pub IsConfirmed : Session → W → Session × W × Option GoError → Type 0
  IsConfirmed s w (s', w', failure) =
      (failure ≢ none)
      ⊎ (((s'.registered && not (s'.is_released && s'.collected)) ≡ false)
          × (((s.registered && not s.is_released) ≡ false) ⊎ Confirmed s w))
