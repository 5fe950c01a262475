-- ===== src/Target/Started.antt =====
-- pkg/sandbox/sandbox.go: what is true of a sandbox that a Start returns.
use aries.Base.{
  ℕ, Bool, true, false, not, Option, none, some, if◌then◌else◌, Bytes, codes, bytes_eq, Result, ok,
  err, [], ◌∷◌, ◌==◌, ◌≡◌, refl, arith,
}
use aries.Core.Errors.{GoError, message, wrapped}
use aries.Core.RuntimeName.{runtime_name}
use aries.Core.Types.{RuntimePlacement, HarnessConnectivity}
use aries.Sandbox.Path.{clean_container_workdir}
use aries.Sandbox.Checks.{validate_workdir, validate_exec_user}
use aries.Sandbox.Request.{Request, DeploymentRequest, deployment_request}
use aries.Sandbox.State.{Host, Sandbox, Manager}
use aries.Sandbox.Start.{
  Started, cut_newline, image_workdir, pwd, with_container, roll_back, or_roll_back, settled,
  settle, recheck, check_running, launch, created, allocate, attached, attach, start_named,
}

-- A sandbox with the request's identities, a name that its task and a nonce give it, and defaults
-- that pass the checks; no Stop of it has begun.
abbrev pub Sane : Bytes → Request → Sandbox → Type 0
Sane nonce r s =
    (s.run_id ≡ r.run_id)
    × (s.task_id ≡ r.task_id)
    × (s.container_name ≡ runtime_name (codes "sandbox") r.task_id nonce)
    × (validate_workdir s.workdir ≡ none)
    × (validate_exec_user s.exec_user ≡ none)
    × (s.stopped ≡ false)
    × (s.stopping ≡ false)

abbrev pub Live : Bytes → Request → Sandbox → Type 0
Live nonce r s = Sane nonce r s × (s.container_owned ≡ true)

-- What a Start yields.
abbrev pub Yields : {W : Type 0} → Bytes → Request → Started W → Type 0
Yields nonce r (m, w, ok s) = Live nonce r s
Yields nonce r (m, w, err e) = Unit

-- A directory that the image names passes the check.
abbrev ValidDir : Result GoError Bytes → Type 0
ValidDir (ok dir) = validate_workdir dir ≡ none
ValidDir (err e) = Unit

cleaned-ValidDir :
    (dir : Bytes)
    → ValidDir (elim (clean_container_workdir dir) [
      | err e ↦ err (wrapped "resolve image working directory" e)
      | ok _ ↦ ok dir
    ])
cleaned-ValidDir dir = each dir (clean_container_workdir dir) refl
  where
    each :
        (dir : Bytes) (cleaned : Result GoError Bytes)
        → clean_container_workdir dir ≡ cleaned
        → ValidDir (elim cleaned [
          | err e ↦ err (wrapped "resolve image working directory" e)
          | ok _ ↦ ok dir
        ])
    each dir (err e) eq = tt
    each [] (ok c) eq = unfold validate_workdir in refl
    each (x ∷ dir) (ok c) eq = unfold validate_workdir in ground (arith, eq)

image_workdir-ValidDir : (result : Result GoError (ℕ × Bytes)) → ValidDir (image_workdir result)
image_workdir-ValidDir (err e) = unfold image_workdir in tt
image_workdir-ValidDir (ok (code, stdout)) =
    unfold image_workdir in each (cut_newline stdout) (code == 0)
  where
    each :
        (cut : Option Bytes) (zero_code : Bool)
        → ValidDir (elim cut [
          | none ↦
              err (
                message "resolve image working directory: pwd failed or returned incomplete output")
          | some dir ↦
              if not zero_code
              then err (
                  message
                    "resolve image working directory: pwd failed or returned incomplete output")
              else elim (clean_container_workdir dir) [
                | err e ↦ err (wrapped "resolve image working directory" e)
                | ok _ ↦ ok dir
              ]
        ])
    each none zero_code = tt
    each (some dir) false = tt
    each (some dir) true = cleaned-ValidDir dir

module _ {W : Type 0} (host : Host W) (nonce : Bytes) (r : Request) where
  or_roll_back-Yields :
      (failure : Option GoError) (s : Sandbox) (m : Manager) (w : W) (next : Started W)
      → Yields nonce r next
      → Yields nonce r (or_roll_back host failure s m w next)
  or_roll_back-Yields (some e) s m w next h = tt
  or_roll_back-Yields none s m w next h = h

  settled-Yields :
      (result : Result GoError Bytes) (s : Sandbox) (m : Manager) (w : W)
      → ValidDir result
      → Live nonce r s
      → Yields nonce r (settled host result s m w)
  settled-Yields (err e) s m w valid live = tt
  settled-Yields (ok dir) s m w valid ((run, task, name, _, user, going, gone), own) =
      ((run, task, name, valid, user, going, gone), own)

  settle-Yields :
      (s : Sandbox) (m : Manager) (w : W) → Live nonce r s → Yields nonce r (settle host s m w)
  settle-Yields s m w live = unfold settle in each (bytes_eq s.workdir [])
    where
      result : Result GoError Bytes
      result = image_workdir (host.exec s.container_id (pwd s.exec_user) w).1

      w1 : W
      w1 = (host.exec s.container_id (pwd s.exec_user) w).0

      each : (b : Bool) → Yields nonce r (if b then settled host result s m w1 else (m, w, ok s))
      each true =
          settled-Yields result s m w1
            (image_workdir-ValidDir (host.exec s.container_id (pwd s.exec_user) w).1) live
      each false = live

  recheck-Yields :
      (request : DeploymentRequest) (s : Sandbox) (m : Manager) (w : W)
      → Live nonce r s
      → Yields nonce r (recheck host request s m w)
  unfolding recheck
  recheck-Yields request s m w live =
      let (w1, failure) = host.validate s.container_id request w in
      let (w2, detached) = host.validate_environment w1 in
      or_roll_back-Yields failure s m w1 (or_roll_back host detached s m w2 (settle host s m w2))
        (or_roll_back-Yields detached s m w2 (settle host s m w2) (settle-Yields s m w2 live))

  check_running-Yields :
      (request : DeploymentRequest) (s : Sandbox) (m : Manager) (w : W)
      → Live nonce r s
      → Yields nonce r (check_running host request s m w)
  check_running-Yields request s m w live =
      unfold check_running in or_roll_back-Yields failure s m w1 (next running) (each running)
    where
      w1 : W
      w1 = (host.running s.container_id w).0

      running : Bool
      running = (host.running s.container_id w).1

      failure : Option GoError
      failure = (host.running s.container_id w).2

      next : Bool → Started W
      next b =
          if b
          then recheck host request s m w1
          else roll_back host (message "task container is not running") s m w1

      each : (b : Bool) → Yields nonce r (next b)
      each true = recheck-Yields request s m w1 live
      each false = tt

  launch-Yields :
      (request : DeploymentRequest) (s : Sandbox) (m : Manager) (w : W)
      → Live nonce r s
      → Yields nonce r (launch host request s m w)
  unfolding launch
  launch-Yields request s m w live =
      let (w1, failure) = host.validate s.container_id request w in
      let (w2, unstarted) = host.start s.container_id w1 in
      let next = check_running host request s m w2 in
      or_roll_back-Yields failure s m w1 (or_roll_back host unstarted s m w2 next)
        (or_roll_back-Yields unstarted s m w2 next (check_running-Yields request s m w2 live))

  created-Yields :
      (id : Bytes) (refused : Option GoError) (request : DeploymentRequest) (s : Sandbox)
      (m : Manager) (w : W)
      → Sane nonce r s
      → Yields nonce r (created host id refused request s m w)
  created-Yields id (some e) request s m w sane = unfold created in tt
  created-Yields id none request s m w sane = unfold created in each (bytes_eq id []) refl
    where
      made : Sandbox
      made = with_container id s

      each :
          (b : Bool)
          → bytes_eq id [] ≡ b
          → Yields nonce r (
              if b
              then roll_back host
                  (message "create task container: deployment returned an empty container ID")
                  made
                  m
                  w
              else launch host request made m w)
      each true eq = tt
      each false eq =
          launch-Yields request made m w (unfold with_container in (sane, ground (arith, eq)))

  allocate-Yields :
      (placement : RuntimePlacement) (s : Sandbox) (m : Manager) (w : W)
      → Sane nonce r s
      → Yields nonce r (allocate host r placement s m w)
  unfolding allocate
  allocate-Yields placement s m w sane =
      let (w1, failure) = host.validate_environment w in
      let request = deployment_request s.container_name (host.timezone w1) placement r in
      let (w2, id, refused) = host.create request w1 in
      or_roll_back-Yields failure s m w1 (created host id refused request s m w2)
        (created-Yields id refused request s m w2 sane)

  attached-Yields :
      (result : Result GoError HarnessConnectivity) (s : Sandbox) (m : Manager) (w : W)
      → Sane nonce r s
      → Yields nonce r (attached host r result s m w)
  attached-Yields (err e) s m w sane = tt
  attached-Yields (ok c) s m w sane = allocate-Yields c.placement s m w sane

  attach-Yields :
      (s : Sandbox) (m : Manager) (w : W) → Sane nonce r s → Yields nonce r (attach host r s m w)
  unfolding attach
  attach-Yields s m w sane =
      let (w1, result) = host.start_environment r s.container_name w in
      attached-Yields result (record s { environment_owned = true }) m w1 sane

  pub start_named-Yields :
      (s : Sandbox) (m : Manager) (w : W)
      → Sane nonce r s
      → Yields nonce r (start_named host r s m w)
  start_named-Yields s m w sane = unfold start_named in each failure made
    where
      w1 : W
      w1 = (host.make_dir s.artifact_dir w).0

      failure : Option GoError
      failure = (host.make_dir s.artifact_dir w).1

      w2 : W
      w2 = (host.new_environment w1).0

      made : Bool
      made = (host.new_environment w1).1

      each :
          (failure : Option GoError) (made : Bool)
          → Yields nonce r (elim failure [
            | some e ↦ (m, w1, err (wrapped "create sandbox artifact directory" e))
            | none ↦
                if made
                then attach host r s m w2
                else (m, w2, err (message "sandbox task environment constructor returned nil"))
          ])
      each (some e) made = tt
      each none false = tt
      each none true = attach-Yields s m w2 sane
