-- ===== src/Session/Evidence.antt =====
-- pkg/bridge/session.go: what evidence a Stop has collected.
use aries.Base.{true, false, ◌&&◌, ◌||◌, not, List, [], ◌∷◌, Bytes, codes, ◌≡◌, ◌⊎◌}
use aries.Control.State.{Artifact, Access}
use aries.Session.Collected.{Collected}
use aries.Session.Stop.{Host, Session, no_artifacts}

module _ {W : Type 0} (host : Host W) where
  -- The manifest names the evidence, as complete, and it was collected.
  abbrev pub Named : Bytes → List Artifact → Type 0
  Named k [] = true ≡ false
  Named k (a ∷ as') =
      ((a.name ≡ k) × (a.status ≡ codes "complete") × Collected host a) ⊎ Named k as'

  -- The session as it collects.
  abbrev taken : Access → Session → Session
  taken a s = record s {
    is_released = true;
    manifest = a.artifacts;
    collected = s.collected || (not s.exposed && no_artifacts a.artifacts);
  }
