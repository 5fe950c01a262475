-- ===== src/Sandbox/Close.antt =====
-- pkg/sandbox/sandbox.go: what a Stop of a sandbox and a Close of the manager confirm.
use aries.Base.{Bool, true, false, ◌&&◌, not, Bytes, none, some, ◌≡◌}
use aries.Sandbox.State.{Host, Sandbox, is_free}
use aries.Sandbox.Stop.{Answer, answered, waits}
use aries.Sandbox.Held.{Laws, IsAttached, Covers}
use aries.Sandbox.Rollback.{Gone}

-- A sandbox that says it is stopped owns nothing.
abbrev pub IsMarked : Sandbox → Type 0
IsMarked s = (s.stopped && not (is_free s)) ≡ false

module _ {W : Type 0} (host : Host W) (container : Bytes → W → Bool) (attachment : W → Bool)
    (laws : Laws host container attachment) (c : Bytes) where
  abbrev Held : Sandbox → W → Type 0
  Held = Covers host container attachment laws c

  -- What each answer of a Stop of `s` means.
  abbrev pub IsSettled : Sandbox → W → Sandbox × W × Answer → Type 0
  IsSettled s w (s', w', answered none) =
      (s'.stopped ≡ true) × Gone host container attachment laws c w'
  IsSettled s w (s', w', answered (some e)) =
      (s'.stopping ≡ false) × (s'.stop_err ≡ some e) × Held s' w'
  IsSettled s w (s', w', waits) = (s' ≡ s) × (w' ≡ w) × (s.stopping ≡ true)

  -- No container is left without its attachment.
  abbrev pub KeepsAttached : Sandbox × W × Answer → Type 0
  KeepsAttached (s, w, answer) = IsAttached host container attachment laws c w
