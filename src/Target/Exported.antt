-- ===== src/Target/Exported.antt =====
-- pkg/sandbox and pkg/bridge/target: what a started sandbox exports is a grant that a bridge accepts.
use aries.Base.{
  ℕ, Bool, true, false, not, List, [], ◌∷◌, Option, none, some, Bytes, codes, bytes_eq,
  bytes_eq_self, has_prefix, cut_prefix, contains_func, one_of, length, ok, ◌≡◌, ◌≤◌, refl, sym, ap,
  subst, ◌∙◌, arith, inl, inr, Option-cases,
}
use aries.Core.Errors.{GoError}
use aries.Core.RuntimeName.{
  with_hint, trim_hyphen, task_hint, runtime_name, is_name_char, is_name, runtime_name-is_name,
}
use aries.Image.{ImageParser}
use aries.Sandbox.Path.{
  elements, resolve_element, resolve, rooted, clean, clean_container_workdir, clean_container_path,
}
use aries.Sandbox.Checks.{
  identity_char, later_identity_char, is_identity, validate_identity, validate_exec_user,
  validate_limits, validate_workdir, validate_command, with_defaults,
}
use aries.Sandbox.Users.{prepare_command_accepts}
use aries.Sandbox.Request.{Request, validate_resources, validate_environment, validate_request}
use aries.Sandbox.State.{Host, Sandbox, Manager}
use aries.Sandbox.Start.{new_sandbox, start_named, manager_start}
use aries.Sandbox.Export.{BridgeTarget, export_bridge_target}
use aries.Target.Grant.{
  breaks_identity, bad_identity, bad_runtime_id, is_backend, probe, validate_target,
}
use aries.Target.Started.{Sane, Live, Yields, start_named-Yields}

contains_func-weaken :
    (p q : ℕ → Bool)
    → ((c : ℕ) → p c ≡ false → q c ≡ false)
    → (s : Bytes) → contains_func p s ≡ false
    → contains_func q s ≡ false
unfolding contains_func
contains_func-weaken p q f [] h = refl
contains_func-weaken p q f (c ∷ s) h =
    ground (arith, f c (ground (arith, h)), contains_func-weaken p q f s (ground (arith, h)))

later_char_fits : (c : ℕ) → not (later_identity_char c) ≡ false → breaks_identity c ≡ false
unfolding one_of
later_char_fits c h = ground (arith, h)

name_char_fits : (c : ℕ) → not (is_name_char c) ≡ false → breaks_identity c ≡ false
unfolding one_of
name_char_fits c h = ground (arith, h)

-- An identity that the sandbox accepts is one that a bridge accepts.
accepted_identity :
    (kind : Bytes) (c : ℕ) (s : Bytes)
    → validate_identity kind (c ∷ s) ≡ none
    → (identity_char c ≡ true)
      × (contains_func (λ d. not (later_identity_char d)) s ≡ false)
      × (length (c ∷ s) ≤ 149)
unfolding validate_identity is_identity
accepted_identity kind c s h = (ground (arith, h), ground (arith, h), ground (arith, h))

fits_identity :
    (c : ℕ) (s : Bytes)
    → identity_char c ≡ true
    → contains_func breaks_identity s ≡ false
    → length (c ∷ s) ≤ 149
    → bad_identity (c ∷ s) ≡ false
unfolding bad_identity bytes_eq contains_func one_of
fits_identity c s first rest short = ground (arith, first, rest, short)

validate_identity-bad_identity :
    (kind v : Bytes) → validate_identity kind v ≡ none → bad_identity v ≡ false
validate_identity-bad_identity kind [] h =
    absurd (unfold validate_identity in ground (arith, h, bytes_eq_self []))
validate_identity-bad_identity kind (c ∷ s) h =
    let (first, rest, short) = accepted_identity kind c s h in
    fits_identity c s first
      (contains_func-weaken (λ d. not (later_identity_char d)) breaks_identity later_char_fits s
        rest)
      short

-- So is a name of lower-case letters, digits and hyphens.
fits_name :
    (v : Bytes)
    → bytes_eq v [] ≡ false
    → is_name v ≡ true
    → contains_func breaks_identity v ≡ false
    → length v ≤ 256
    → bad_identity v ≡ false
unfolding bad_identity bytes_eq contains_func
fits_name [] nonempty label fits short = cc
fits_name (c ∷ s) nonempty label fits short = ground (arith, label, fits, short)

label-bad_identity :
    (v : Bytes) → bytes_eq v [] ≡ false → is_name v ≡ true → length v ≤ 256 → bad_identity v ≡ false
label-bad_identity v nonempty label short =
    fits_name v nonempty label
      (contains_func-weaken (λ d. not (is_name_char d)) breaks_identity name_char_fits v
        (ground (arith, label)))
      short

runtime_name_nonempty :
    (role : Bytes) (task_id : List ℕ) (nonce : Bytes)
    → bytes_eq (runtime_name role task_id nonce) [] ≡ false
runtime_name_nonempty role task_id nonce =
    unfold runtime_name in each (trim_hyphen (task_hint [] task_id))
  where
    each : (hint : Bytes) → bytes_eq (with_hint role hint nonce) [] ≡ false
    each [] = unfold with_hint bytes_eq in refl
    each (c ∷ hint) = unfold with_hint bytes_eq in refl

-- The probe passes with the defaults of a sandbox.
probe_accepted :
    (workdir user : Bytes)
    → validate_workdir workdir ≡ none
    → validate_exec_user user ≡ none
    → validate_command (with_defaults workdir user probe) ≡ none
unfolding validate_command with_defaults validate_limits
probe_accepted workdir user dir id = ground (arith, path, dir, id)
  where
    path : clean_container_path (codes "/bin/true") ≡ ok (codes "/bin/true")
    path =
        unfold clean_container_path clean_container_workdir clean resolve resolve_element rooted
          elements contains_func has_prefix cut_prefix bytes_eq in
        refl

-- What the checks on a request say of its identities and defaults.
validate_request-parts :
    (parse : ImageParser) (r : Request)
    → validate_request parse r ≡ none
    → (validate_identity (codes "run") r.run_id ≡ none)
      × (validate_identity (codes "task") r.task_id ≡ none)
      × (validate_workdir r.wanted.workdir ≡ none)
      × (validate_exec_user r.wanted.exec_user ≡ none)
unfolding validate_request validate_environment validate_resources
validate_request-parts parse r h =
    (ground (arith, h), ground (arith, h), ground (arith, h), ground (arith, h))

new_sandbox-Sane :
    (m : Manager) (r : Request) (nonce : Bytes)
    → validate_workdir r.wanted.workdir ≡ none
    → validate_exec_user r.wanted.exec_user ≡ none
    → Sane nonce r (new_sandbox m r nonce)
unfolding new_sandbox
new_sandbox-Sane m r nonce dir user = (refl, refl, refl, dir, user, refl, refl)

exported : Bytes → Sandbox → BridgeTarget
exported backend s = record {
  run_id = s.run_id;
  task_id = s.task_id;
  sandbox_id = s.container_name;
  backend = backend;
  runtime_id = s.container_id;
  workdir = s.workdir;
  exec_user = s.exec_user;
}

-- The grant of a sandbox whose parts pass.
validate_exported :
    (backend : Bytes) (s : Sandbox)
    → bad_identity s.run_id ≡ false
    → bad_identity s.task_id ≡ false
    → bad_identity s.container_name ≡ false
    → bad_runtime_id s.container_id ≡ false
    → is_backend backend ≡ true
    → validate_workdir s.workdir ≡ none
    → validate_exec_user s.exec_user ≡ none
    → validate_target (exported backend s) ≡ none
unfolding validate_target exported
validate_exported backend s run task name id known dir user = ground (
  arith,
  run,
  task,
  name,
  id,
  known,
  prepare_command_accepts probe s.workdir s.exec_user probe_plain
      (probe_accepted s.workdir s.exec_user dir user),
)
  where
    probe_plain : validate_command probe ≡ none
    probe_plain =
        let same : with_defaults [] [] probe ≡ probe = unfold with_defaults in refl in
        subst (λ c. validate_command c ≡ none) same
          (probe_accepted [] [] (unfold validate_workdir in refl)
            (unfold validate_exec_user in refl))

export_live :
    (backend : Bytes) (s : Sandbox)
    → s.container_owned ≡ true
    → s.stopped ≡ false
    → s.stopping ≡ false
    → export_bridge_target (some backend) s ≡ ok (exported backend s)
unfolding export_bridge_target exported
export_live backend s own going idle = ground (arith, own, going, idle)

module _ {W : Type 0} (host : Host W) where
  -- A Start that succeeds has passed the checks, and yields what `start_named` does.
  started :
      (r : Request) (nonce : Bytes) (m m' : Manager) (w w' : W) (s : Sandbox)
      → (host.new_id w).1 ≡ ok nonce
      → manager_start host r m w ≡ (m', w', ok s)
      → (validate_request host.parse_image r ≡ none) × Live nonce r s
  started r nonce m m' w w' s named eq = elim (Option-cases checked) [
    | inr (e, bad) ↦ absurd (refuses e bad)
    | inl fine ↦
        let (_, _, dir, user) = validate_request-parts host.parse_image r fine in
        (
          fine,
          subst (Yields nonce r) (sym (goes_on fine) ∙ eq) (
              start_named-Yields host nonce r (new_sandbox m r nonce) m (host.new_id w).0
                (new_sandbox-Sane m r nonce dir user)),
        )
  ]
    where
      checked : Option GoError
      checked = validate_request host.parse_image r

      refuses : (e : GoError) → checked ≡ some e → ⊥
      refuses e bad = unfold manager_start in ground (arith, bad, eq)

      goes_on :
          checked ≡ none
          → manager_start host r m w
            ≡ start_named host r (new_sandbox m r nonce) m (host.new_id w).0
      goes_on fine = unfold manager_start in ground (arith, fine, named)

  -- A sandbox that Start returns can be exported to a bridge at once, and what it exports passes the
  -- bridge's checks on a grant: if its nonce is of at most 16 lower-case letters, digits and
  -- hyphens, the deployment's identity of the container is one that a grant may hold, and so is the
  -- name of its backend.
  pub manager_start-validate_target :
      (r : Request) (nonce backend : Bytes) (m m' : Manager) (w w' : W) (s : Sandbox)
      → (host.new_id w).1 ≡ ok nonce
      → is_name nonce ≡ true
      → length nonce ≤ 16
      → bad_runtime_id s.container_id ≡ false
      → is_backend backend ≡ true
      → manager_start host r m w ≡ (m', w', ok s)
      → (d : BridgeTarget) × (export_bridge_target (some backend) s ≡ ok d)
        × (validate_target d ≡ none)
  manager_start-validate_target r nonce backend m m' w w' s named label short id known eq =
      let (fine, ((run, task, name, dir, user, going, idle), own)) =
        started r nonce m m' w w' s named eq in
      let (run_fits, task_fits, _, _) = validate_request-parts host.parse_image r fine in
      let (name_label, name_short) =
        runtime_name-is_name (codes "sandbox") r.task_id nonce (unfold contains_func in refl)
          label in
      (
        exported backend s,
        export_live backend s own going idle,
        validate_exported backend s
            (ap bad_identity run ∙ validate_identity-bad_identity (codes "run") r.run_id run_fits)
            (ap bad_identity task
              ∙ validate_identity-bad_identity (codes "task") r.task_id task_fits)
            (ap bad_identity name
              ∙ label-bad_identity (runtime_name (codes "sandbox") r.task_id nonce)
                  (runtime_name_nonempty (codes "sandbox") r.task_id nonce) name_label
                  (ground (arith, name_short, short)))
            id known dir user,
      )
