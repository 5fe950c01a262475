-- ===== src/Sandbox/Leaks.antt =====
-- pkg/sandbox/sandbox.go: what a Start leaves behind.
use aries.Base.{
  Bool, true, false, ◌&&◌, not, if◌then◌else◌, [], Option, none, some, Bytes, bytes_eq, Result, ok,
  err, ◌≡◌, ◌⊎◌, inl, inr, refl, sym, subst, arith, Bool-cases,
}
use aries.Core.Errors.{GoError, message, wrapped, allocation_unconfirmed, errors_is, is}
use aries.Core.Types.{RuntimePlacement, HarnessConnectivity}
use aries.Sandbox.Request.{Request, DeploymentRequest, validate_request, deployment_request}
use aries.Sandbox.State.{Host, Sandbox, Manager}
use aries.Sandbox.Start.{
  Started, new_sandbox, with_container, roll_back, launch, created, allocate, attached, attach,
  start_named, start_new, manager_start,
}
use aries.Sandbox.Held.{Laws, Covers}
use aries.Sandbox.Rollback.{
  Gone, IsAccounted, roll_back-IsAccounted, or_roll_back-IsAccounted, launch-IsAccounted,
  rollback_start-is,
}

module _ {W : Type 0} (host : Host W) (container : Bytes → W → Bool) (attachment : W → Bool)
    (laws : Laws host container attachment) (c : Bytes) where
  abbrev Good : Manager → Started W → Type 0
  Good = IsAccounted host container attachment laws c

  -- After `Create`, on a sandbox whose environment is owned: it owns what has its identity, and
  -- nothing else was allocated unless the error says that this is unconfirmed.
  created-IsAccounted :
      (id : Bytes) (refused : Option GoError) (request : DeploymentRequest) (s : Sandbox)
      (m : Manager) (w : W)
      → s.environment_owned ≡ true
      → (errors_is refused allocation_unconfirmed ≡ true)
        ⊎ ((container c w && not (bytes_eq id c && not (bytes_eq id []))) ≡ false)
      → Good m (created host id refused request s m w)
  created-IsAccounted id refused request s m w own known = elim known [
    | inl unconfirmed ↦ without refused unconfirmed
    | inr held ↦ with_identity refused held
  ]
    where
      made : Sandbox
      made = with_container id s

      covered :
          (container c w && not (bytes_eq id c && not (bytes_eq id []))) ≡ false
          → Covers host container attachment laws c made w
      covered held = unfold with_container in (ground (arith, held), ground (arith, own))

      launches :
          bytes_eq id [] ≡ false → created host id none request s m w ≡ launch host request made m w
      launches named = unfold created in ground (arith, named)

      refuses :
          bytes_eq id [] ≡ true
          → created host id none request s m w
            ≡ roll_back host
                (message "create task container: deployment returned an empty container ID")
                made
                m
                w
      refuses empty = unfold created in ground (arith, empty)

      without :
          (refused : Option GoError)
          → errors_is refused allocation_unconfirmed ≡ true
          → Good m (created host id refused request s m w)
      without (some e) unconfirmed =
          unfold created in
          inl (
            rollback_start-is host container attachment laws c (wrapped "create task container" e)
              made m w (unfold is in unconfirmed))
      without none unconfirmed = cc

      with_identity :
          (refused : Option GoError)
          → (container c w && not (bytes_eq id c && not (bytes_eq id []))) ≡ false
          → Good m (created host id refused request s m w)
      with_identity (some e) held =
          unfold created in
          roll_back-IsAccounted host container attachment laws c (wrapped "create task container" e)
            made m w (covered held)
      with_identity none held = elim (Bool-cases (bytes_eq id [])) [
        | inl empty ↦ subst (Good m) (sym (refuses empty)) (
            roll_back-IsAccounted host container attachment laws c
              (message "create task container: deployment returned an empty container ID") made m w
              (covered held))
        | inr named ↦ subst (Good m) (sym (launches named)) (
            launch-IsAccounted host container attachment laws c request made m w
              (unfold with_container in (ground (arith, named), own, ground (arith, named, held))))
      ]

  allocate-IsAccounted :
      (r : Request) (placement : RuntimePlacement) (s : Sandbox) (m : Manager) (w : W)
      → s.environment_owned ≡ true
      → container c w ≡ false
      → Good m (allocate host r placement s m w)
  allocate-IsAccounted r placement s m w own absent =
      unfold allocate in
      or_roll_back-IsAccounted host container attachment laws c failure s m w1
        (created host id refused request s m w2) (ground (arith, still_absent), ground (arith, own))
        (created-IsAccounted id refused request s m w2 own known)
    where
      w1 : W
      w1 = (host.validate_environment w).0

      failure : Option GoError
      failure = (host.validate_environment w).1

      request : DeploymentRequest
      request = deployment_request s.container_name (host.timezone w1) placement r

      w2 : W
      w2 = (host.create request w1).0

      id : Bytes
      id = (host.create request w1).1

      refused : Option GoError
      refused = (host.create request w1).2

      still_absent : container c w1 ≡ false
      still_absent = ground (arith, absent, laws.validate_environment_quiet c w)

      known :
          (errors_is refused allocation_unconfirmed ≡ true)
          ⊎ ((container c w2 && not (bytes_eq id c && not (bytes_eq id []))) ≡ false)
      known = elim (Bool-cases (errors_is refused allocation_unconfirmed)) [
        | inl unconfirmed ↦ inl unconfirmed
        | inr confirmed ↦ elim (Bool-cases (bytes_eq id c && not (bytes_eq id []))) [
          | inl named ↦ inr (ground (arith, named))
          | inr other ↦
              inr (ground (arith, laws.create_confirms c request w1 still_absent other confirmed))
        ]
      ]

  attached-IsAccounted :
      (r : Request) (result : Result GoError HarnessConnectivity) (s : Sandbox) (m : Manager)
      (w : W)
      → s.environment_owned ≡ true
      → container c w ≡ false
      → Good m (attached host r result s m w)
  attached-IsAccounted r (err e) s m w own absent =
      roll_back-IsAccounted host container attachment laws c (wrapped "start task environment" e) s
        m w (ground (arith, absent), ground (arith, own))
  attached-IsAccounted r (ok made) s m w own absent =
      allocate-IsAccounted r made.placement s m w own absent

  attach-IsAccounted :
      (r : Request) (s : Sandbox) (m : Manager) (w : W)
      → container c w ≡ false
      → Good m (attach host r s m w)
  unfolding attach
  attach-IsAccounted r s m w absent =
      let (w1, result) = host.start_environment r s.container_name w in
      attached-IsAccounted r result (record s { environment_owned = true }) m w1 refl
        (ground (arith, absent, laws.start_environment_quiet c r s.container_name w))

  start_named-IsAccounted :
      (r : Request) (s : Sandbox) (m : Manager) (w : W)
      → Gone host container attachment laws c w
      → Good m (start_named host r s m w)
  start_named-IsAccounted r s m w (absent, a) = unfold start_named in named failure made
    where
      w1 : W
      w1 = (host.make_dir s.artifact_dir w).0

      failure : Option GoError
      failure = (host.make_dir s.artifact_dir w).1

      w2 : W
      w2 = (host.new_environment w1).0

      made : Bool
      made = (host.new_environment w1).1

      gone1 : Gone host container attachment laws c w1
      gone1 =
          let (qc, qa) = laws.make_dir_quiet c s.artifact_dir w in
          (ground (arith, absent, qc), ground (arith, a, qa))

      gone2 : Gone host container attachment laws c w2
      gone2 =
          let (qc, qa) = laws.new_environment_quiet c w1 in
          (ground (arith, gone1.0, qc), ground (arith, gone1.1, qa))

      named :
          (failure : Option GoError) (made : Bool)
          → Good m (elim failure [
            | some e ↦ (m, w1, err (wrapped "create sandbox artifact directory" e))
            | none ↦
                if made
                then attach host r s m w2
                else (m, w2, err (message "sandbox task environment constructor returned nil"))
          ])
      named (some e) made = inr (inr (refl, gone1))
      named none true = attach-IsAccounted r s m w2 gone2.0
      named none false = inr (inr (refl, gone2))

  -- A Start by a deployment and an environment that keep their promises, seen from any container
  -- identity that does not exist before, as the attachment does not: if it fails, then its error says
  -- that an allocation is unconfirmed, or neither that container nor the attachment is left, or the
  -- manager keeps a sandbox pending that owns whatever of the two is left, the container under its
  -- identity. If it succeeds, the sandbox owns both its parts, a container that there is has its
  -- identity, and the manager is as before.
  pub manager_start-IsAccounted :
      (r : Request) (m : Manager) (w : W)
      → container c w ≡ false
      → attachment w ≡ false
      → Good m (manager_start host r m w)
  manager_start-IsAccounted r m w absent a =
      unfold manager_start in checked (validate_request host.parse_image r)
    where
      w1 : W
      w1 = (host.new_id w).0

      id : Result GoError Bytes
      id = (host.new_id w).1

      gone1 : Gone host container attachment laws c w1
      gone1 =
          let (qc, qa) = laws.new_id_quiet c w in
          (ground (arith, absent, qc), ground (arith, a, qa))

      new : (id : Result GoError Bytes) → Good m (start_new host r id m w1)
      new (err e) = inr (inr (refl, gone1))
      new (ok nonce) = start_named-IsAccounted r (new_sandbox m r nonce) m w1 gone1

      checked :
          (refused : Option GoError)
          → Good m (elim refused [ some e ↦ (m, w, err e) | none ↦ start_new host r id m w1 ])
      checked (some e) = inr (inr (refl, (absent, a)))
      checked none = new id
