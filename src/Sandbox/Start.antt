-- ===== src/Sandbox/Start.antt =====
-- pkg/sandbox/sandbox.go: `Manager.Start`, from its last call to its first. `manager_start` checks
-- the request and makes the sandbox; `attach` starts the task environment; `allocate` creates the
-- container; `launch` validates, starts and checks it; `settle` finds the working directory.
use aries.Base.{
  ℕ, pos, true, false, not, [], ◌∷◌, ◌++◌, Option, none, some, ◌==◌, if◌then◌else◌, Bytes, codes,
  bytes_eq, Result, ok, err,
}
use aries.Core.Errors.{GoError, message, wrapped}
use aries.Core.RuntimeName.{runtime_name}
use aries.Core.Types.{RuntimePlacement, HarnessConnectivity}
use aries.Sandbox.Path.{clean, clean_container_workdir}
use aries.Sandbox.Checks.{Command}
use aries.Sandbox.Request.{
  Request, DeploymentRequest, validate_request, sandbox_component, deployment_request,
}
use aries.Sandbox.State.{Host, Sandbox, Manager}
use aries.Sandbox.Stop.{rollback_start}

abbrev pub Started : Type 0 → Type 0
Started W = Manager × W × Result GoError Sandbox

-- `strings.CutSuffix(s, "\n")`: `none` if there is no newline at the end.
unfoldable pub cut_newline : Bytes → Option Bytes
cut_newline [] = none
cut_newline (c ∷ []) = if c == 10 then some [] else none
cut_newline (c ∷ d ∷ s) = elim (cut_newline (d ∷ s)) [ none ↦ none | some t ↦ some (c ∷ t) ]

-- What `pwd -P` printed, against its exit code.
unfoldable pub image_workdir : Result GoError (ℕ × Bytes) → Result GoError Bytes
image_workdir (err e) = err (wrapped "resolve image working directory" e)
image_workdir (ok (code, stdout)) = elim (cut_newline stdout) [
  | none ↦ err (message "resolve image working directory: pwd failed or returned incomplete output")
  | some workdir ↦
      if not (code == 0)
      then err (message "resolve image working directory: pwd failed or returned incomplete output")
      else elim (clean_container_workdir workdir) [
        | err e ↦ err (wrapped "resolve image working directory" e)
        | ok _ ↦ ok workdir
      ]
]

abbrev pub pwd : Bytes → Command
pwd user = record {
  path = codes "/bin/sh";
  args = codes "-c" ∷ codes "pwd -P" ∷ [];
  dir = [];
  env = [];
  timeout = pos 0;
  user = user;
  output_limit_bytes = pos 0;
}

-- `filepath.Join(outputDir, taskID, component)`, below a rooted directory.
unfoldable pub artifact_directory : Bytes → Request → Bytes
artifact_directory output_dir r = clean (output_dir ++ 47 ∷ (r.task_id ++ 47 ∷ sandbox_component r))

unfoldable pub new_sandbox : Manager → Request → Bytes → Sandbox
new_sandbox m r id = record {
  owner = m.id;
  container_id = [];
  container_name = runtime_name (codes "sandbox") r.task_id id;
  workdir = r.wanted.workdir;
  exec_user = r.wanted.exec_user;
  artifact_dir = artifact_directory m.output_dir r;
  run_id = r.run_id;
  task_id = r.task_id;
  container_owned = false;
  environment_owned = false;
  stopped = false;
  stopping = false;
  stop_err = none;
}

-- The sandbox with the identity that `Create` returned.
unfoldable pub with_container : Bytes → Sandbox → Sandbox
with_container id s = record s { container_id = id; container_owned = not (bytes_eq id []) }

module _ {W : Type 0} (host : Host W) where
  -- `return nil, s.rollbackStart(ctx, e)`
  abbrev pub roll_back : GoError → Sandbox → Manager → W → Started W
  roll_back e s m w = let (m1, w1, failure) = rollback_start host e s m w in (m1, w1, err failure)

  -- One call whose error rolls back, and what follows it.
  abbrev pub or_roll_back : Option GoError → Sandbox → Manager → W → Started W → Started W
  or_roll_back (some e) s m w next = roll_back e s m w
  or_roll_back none s m w next = next

  abbrev pub settled : Result GoError Bytes → Sandbox → Manager → W → Started W
  settled (err e) s m w = roll_back e s m w
  settled (ok workdir) s m w = (m, w, ok (record s { workdir = workdir }))

  unfoldable pub settle : Sandbox → Manager → W → Started W
  settle s m w =
      let (w1, result) = host.exec s.container_id (pwd s.exec_user) w in
      let resolved = settled (image_workdir result) s m w1 in
      if bytes_eq s.workdir [] then resolved else (m, w, ok s)

  -- The second validation of the container and of the environment.
  unfoldable pub recheck : DeploymentRequest → Sandbox → Manager → W → Started W
  recheck request s m w =
      let (w1, failure) = host.validate s.container_id request w in
      let (w2, detached) = host.validate_environment w1 in
      or_roll_back failure s m w1 (or_roll_back detached s m w2 (settle s m w2))

  unfoldable pub check_running : DeploymentRequest → Sandbox → Manager → W → Started W
  check_running request s m w =
      let (w1, running, failure) = host.running s.container_id w in
      let next = recheck request s m w1 in
      or_roll_back failure s m w1
        (if running then next else roll_back (message "task container is not running") s m w1)

  unfoldable pub launch : DeploymentRequest → Sandbox → Manager → W → Started W
  launch request s m w =
      let (w1, failure) = host.validate s.container_id request w in
      let (w2, unstarted) = host.start s.container_id w1 in
      or_roll_back failure s m w1 (or_roll_back unstarted s m w2 (check_running request s m w2))

  -- What follows `Create`, which may return an identity and an error.
  unfoldable pub created :
      Bytes → Option GoError → DeploymentRequest → Sandbox → Manager → W → Started W
  created id (some e) request s m w =
      roll_back (wrapped "create task container" e) (with_container id s) m w
  created id none request s m w =
      let next = launch request (with_container id s) m w in
      if bytes_eq id []
      then roll_back (message "create task container: deployment returned an empty container ID")
          (with_container id s) m w
      else next

  unfoldable pub allocate : Request → RuntimePlacement → Sandbox → Manager → W → Started W
  allocate r placement s m w =
      let (w1, failure) = host.validate_environment w in
      let request = deployment_request s.container_name (host.timezone w1) placement r in
      let (w2, id, refused) = host.create request w1 in
      or_roll_back failure s m w1 (created id refused request s m w2)

  abbrev pub attached :
      Request → Result GoError HarnessConnectivity → Sandbox → Manager → W → Started W
  attached r (err e) s m w = roll_back (wrapped "start task environment" e) s m w
  attached r (ok connectivity) s m w = allocate r connectivity.placement s m w

  unfoldable pub attach : Request → Sandbox → Manager → W → Started W
  attach r s m w =
      let owned = record s { environment_owned = true } in
      let (w1, result) = host.start_environment r s.container_name w in attached r result owned m w1

  unfoldable pub start_named : Request → Sandbox → Manager → W → Started W
  start_named r s m w =
      let (w1, failure) = host.make_dir s.artifact_dir w in
      let (w2, made) = host.new_environment w1 in
      let next = attach r s m w2 in
      elim failure [
        | some e ↦ (m, w1, err (wrapped "create sandbox artifact directory" e))
        | none ↦
            if made
            then next
            else (m, w2, err (message "sandbox task environment constructor returned nil"))
      ]

  abbrev pub start_new : Request → Result GoError Bytes → Manager → W → Started W
  start_new r (err e) m w = (m, w, err (wrapped "generate sandbox ID" e))
  start_new r (ok id) m w = start_named r (new_sandbox m r id) m w

  unfoldable pub manager_start : Request → Manager → W → Started W
  manager_start r m w =
      let (w1, id) = host.new_id w in
      let next = start_new r id m w1 in
      elim (validate_request host.parse_image r) [ some e ↦ (m, w, err e) | none ↦ next ]
