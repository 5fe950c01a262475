-- ===== src/Sandbox/Rollback.antt =====
-- pkg/sandbox/sandbox.go: what a Start leaves when one of its calls fails and it rolls back.
use aries.Base.{
  Bool, true, false, ◌&&◌, not, ◌∙◌, if◌then◌else◌, [], ◌∷◌, Option, none, some, Bytes, bytes_eq,
  Result, ok, err, ◌≡◌, ◌⊎◌, inl, inr, refl, sym, subst, arith, Bool-cases, Option-cases,
}
use aries.Core.Errors.{
  GoError, message, wrapped, joined, nil, cons, allocation_unconfirmed, errors_is, is,
}
use aries.Sandbox.Request.{DeploymentRequest}
use aries.Sandbox.State.{Host, Sandbox, Manager, is_free}
use aries.Sandbox.Stop.{stop_once, keep_pending, rollback_start}
use aries.Sandbox.Start.{
  Started, image_workdir, pwd, roll_back, or_roll_back, settled, settle, recheck, check_running,
  launch,
}
use aries.Sandbox.Held.{Laws, Covers, stop_once-Covers, stop_once_done}

module _ {W : Type 0} (host : Host W) (container : Bytes → W → Bool) (attachment : W → Bool)
    (laws : Laws host container attachment) (c : Bytes) where
  abbrev pub Gone : W → Type 0
  Gone w = (container c w ≡ false) × (attachment w ≡ false)

  abbrev pub RolledBack : Manager → Manager × W × GoError → Type 0
  RolledBack m (m', w, e) =
      (errors_is (some e) allocation_unconfirmed ≡ true)
      ⊎ (((s : Sandbox) × (m'.pending ≡ s ∷ m.pending)
            × Covers host container attachment laws c s w)
          ⊎ ((m'.pending ≡ m.pending) × Gone w))

  -- A Start that fails says that an allocation is unconfirmed, or keeps the sandbox pending with
  -- whatever is still there owned, or leaves nothing. One that succeeds owns both parts, the
  -- container under the identity that it has.
  abbrev pub IsAccounted : Manager → Started W → Type 0
  IsAccounted m (m', w, ok s) =
      (m' ≡ m)
      × (s.container_owned ≡ true)
      × (s.environment_owned ≡ true)
      × Covers host container attachment laws c s w
  IsAccounted m (m', w, err e) = RolledBack m (m', w, e)

  pub Covers-free :
      (s : Sandbox) (w : W)
      → is_free s ≡ true
      → Covers host container attachment laws c s w
      → Gone w
  Covers-free s w free (held, a) = (ground (arith, free, held), ground (arith, free, a))

  rollback_start-RolledBack :
      (e : GoError) (s : Sandbox) (m : Manager) (w : W)
      → Covers host container attachment laws c s w
      → RolledBack m (rollback_start host e s m w)
  rollback_start-RolledBack e s m w h = elim (Option-cases (stop_once host false s w).2) [
    | inl clean ↦
        subst (RolledBack m) (sym (released clean))
          (inr (inr (refl, Covers-free s1 w1 (stop_once_done host false s w clean) covered)))
    | inr (failure, there) ↦
        subst (RolledBack m) (sym (retained failure there)) (inr (inl (s1, refl, covered)))
  ]
    where
      s1 : Sandbox
      s1 = (stop_once host false s w).0

      w1 : W
      w1 = (stop_once host false s w).1

      covered : Covers host container attachment laws c s1 w1
      covered = stop_once-Covers host container attachment laws c false s w h

      released : (stop_once host false s w).2 ≡ none → rollback_start host e s m w ≡ (m, w1, e)
      released clean = unfold rollback_start in ground (arith, clean)

      retained :
          (failure : GoError)
          → (stop_once host false s w).2 ≡ some failure
          → rollback_start host e s m w ≡ (
            keep_pending s1 m,
            w1,
            joined (cons e (cons (wrapped "rollback partial sandbox" failure) nil)),
          )
      retained failure there = unfold rollback_start in ground (arith, there)

  pub roll_back-IsAccounted :
      (e : GoError) (s : Sandbox) (m : Manager) (w : W)
      → Covers host container attachment laws c s w
      → IsAccounted m (roll_back host e s m w)
  roll_back-IsAccounted e s m w h = rollback_start-RolledBack e s m w h

  pub or_roll_back-IsAccounted :
      (failure : Option GoError) (s : Sandbox) (m : Manager) (w : W) (next : Started W)
      → Covers host container attachment laws c s w
      → IsAccounted m next
      → IsAccounted m (or_roll_back host failure s m w next)
  or_roll_back-IsAccounted (some e) s m w next h k = roll_back-IsAccounted e s m w h
  or_roll_back-IsAccounted none s m w next h k = k

  -- A sandbox that owns both parts, the container under its identity.
  abbrev pub Full : Sandbox → W → Type 0
  Full s w =
      (s.container_owned ≡ true)
      × (s.environment_owned ≡ true)
      × ((container c w && not (bytes_eq s.container_id c)) ≡ false)

  pub Full-Covers : (s : Sandbox) (w : W) → Full s w → Covers host container attachment laws c s w
  Full-Covers s w (own, env, held) = (ground (arith, own, held), ground (arith, env))

  -- A call that makes no container keeps it so.
  Full-keeps :
      (s : Sandbox) (w w' : W)
      → (container c w ≡ false → container c w' ≡ false)
      → Full s w
      → Full s w'
  Full-keeps s w w' makes_none (own, env, held) = (
    own,
    env,
    elim (Bool-cases (bytes_eq s.container_id c)) [
      | inl equal ↦ ground (arith, equal)
      | inr other ↦ ground (arith, makes_none (ground (arith, other, held)))
    ],
  )

  settled-IsAccounted :
      (result : Result GoError Bytes) (s : Sandbox) (m : Manager) (w : W)
      → Full s w
      → IsAccounted m (settled host result s m w)
  settled-IsAccounted (err e) s m w full = roll_back-IsAccounted e s m w (Full-Covers s w full)
  settled-IsAccounted (ok workdir) s m w (own, env, held) =
      (refl, own, env, Full-Covers s w (own, env, held))

  settle-IsAccounted :
      (s : Sandbox) (m : Manager) (w : W) → Full s w → IsAccounted m (settle host s m w)
  settle-IsAccounted s m w (own, env, held) = elim (Bool-cases (bytes_eq s.workdir [])) [
    | inl empty ↦ subst (IsAccounted m) (sym (asks empty)) (
        settled-IsAccounted (image_workdir (host.exec s.container_id (pwd s.exec_user) w).1) s m
          (host.exec s.container_id (pwd s.exec_user) w).0
          (Full-keeps s w (host.exec s.container_id (pwd s.exec_user) w).0
            (laws.exec_makes_none c s.container_id (pwd s.exec_user) w) (own, env, held)))
    | inr named ↦
        subst (IsAccounted m) (sym (keeps named)) (refl, own, env, Full-Covers s w (own, env, held))
  ]
    where
      asks :
          bytes_eq s.workdir [] ≡ true
          → settle host s m w
            ≡ settled host
                (image_workdir (host.exec s.container_id (pwd s.exec_user) w).1)
                s
                m
                (host.exec s.container_id (pwd s.exec_user) w).0
      asks empty = unfold settle in ground (arith, empty)

      keeps : bytes_eq s.workdir [] ≡ false → settle host s m w ≡ (m, w, ok s)
      keeps named = unfold settle in ground (arith, named)

  recheck-IsAccounted :
      (request : DeploymentRequest) (s : Sandbox) (m : Manager) (w : W)
      → Full s w
      → IsAccounted m (recheck host request s m w)
  unfolding recheck
  recheck-IsAccounted request s m w full =
      let (w1, failure) = host.validate s.container_id request w in
      let (w2, detached) = host.validate_environment w1 in
      let full1 = Full-keeps s w w1 (laws.validate_makes_none c s.container_id request w) full in
      let full2 = Full-keeps s w1 w2 (λ h. laws.validate_environment_quiet c w1 ∙ h) full1 in
      or_roll_back-IsAccounted failure s m w1
        (or_roll_back host detached s m w2 (settle host s m w2)) (Full-Covers s w1 full1)
        (or_roll_back-IsAccounted detached s m w2 (settle host s m w2) (Full-Covers s w2 full2)
          (settle-IsAccounted s m w2 full2))

  check_running-IsAccounted :
      (request : DeploymentRequest) (s : Sandbox) (m : Manager) (w : W)
      → Full s w
      → IsAccounted m (check_running host request s m w)
  check_running-IsAccounted request s m w full =
      unfold check_running in
      or_roll_back-IsAccounted failure s m w1 (next running) (Full-Covers s w1 full1) (each running)
    where
      w1 : W
      w1 = (host.running s.container_id w).0

      running : Bool
      running = (host.running s.container_id w).1

      failure : Option GoError
      failure = (host.running s.container_id w).2

      full1 : Full s w1
      full1 = Full-keeps s w w1 (laws.running_makes_none c s.container_id w) full

      next : Bool → Started W
      next b =
          if b
          then recheck host request s m w1
          else roll_back host (message "task container is not running") s m w1

      each : (b : Bool) → IsAccounted m (next b)
      each true = recheck-IsAccounted request s m w1 full1
      each false =
          roll_back-IsAccounted (message "task container is not running") s m w1
            (Full-Covers s w1 full1)

  pub launch-IsAccounted :
      (request : DeploymentRequest) (s : Sandbox) (m : Manager) (w : W)
      → Full s w
      → IsAccounted m (launch host request s m w)
  unfolding launch
  launch-IsAccounted request s m w full =
      let (w1, failure) = host.validate s.container_id request w in
      let (w2, unstarted) = host.start s.container_id w1 in
      let full1 = Full-keeps s w w1 (laws.validate_makes_none c s.container_id request w) full in
      let full2 = Full-keeps s w1 w2 (laws.start_makes_none c s.container_id w1) full1 in
      let next = check_running host request s m w2 in
      or_roll_back-IsAccounted failure s m w1 (or_roll_back host unstarted s m w2 next)
        (Full-Covers s w1 full1)
        (or_roll_back-IsAccounted unstarted s m w2 next (Full-Covers s w2 full2)
          (check_running-IsAccounted request s m w2 full2))

  -- A rollback keeps what `errors.Is` finds in the error.
  pub rollback_start-is :
      (e : GoError) (s : Sandbox) (m : Manager) (w : W)
      → is e allocation_unconfirmed ≡ true
      → is (rollback_start host e s m w).2 allocation_unconfirmed ≡ true
  unfolding rollback_start is
  rollback_start-is e s m w h = ground (arith, h)
