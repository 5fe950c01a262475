-- ===== src/Ssh/OpenClaw/Command.antt =====
-- pkg/bridge/ssh/openclaw/grammar.go: what `decodeRemoteCommand` accepts.
use aries.Base.{
  Bool, false, List, [], ◌∷◌, ◌++◌, map, none, Bytes, codes, bytes_eq, contains_func, one_of,
  Result, ok, err, All, ◌≡◌, ◌≢◌, refl, sym, ap, ap₂, ◌∙◌, ◌⊎◌, inl, inr, ◌↔◌, arith, Bool-cases,
  Option-cases, subst, bytes_eq_iff,
}
use aries.Ssh.OpenClaw.{
  Error, is_seen, remote_shell, remote_env, decode_canonical_tokens, encode_canonical_tokens,
  shell_tokens, check_shell, check_command, check_canonical, decode_remote_command,
}
use aries.Ssh.OpenClaw.Tokens.{decode-encode_canonical_tokens, encoded_head}
use aries.Ssh.OpenClaw.Environment.{spell, Environment}
use aries.Ssh.OpenClaw.Assignments.{assignments_sound, assignments_complete}

abbrev pub has_nul : Bytes → Bool
has_nul s = contains_func (one_of (0 ∷ [])) s

-- The shell, `-c`, a script that is not empty, and any arguments.
abbrev pub ShellCommand : List Bytes → Type 0
ShellCommand ts =
    (script : Bytes) × (args : List Bytes) × (ts ≡ remote_shell ∷ codes "-c" ∷ script ∷ args)
    × (script ≢ [])

-- A command of the shell, with or without an environment set before it.
abbrev pub Command : List Bytes → Type 0
Command argv =
    ShellCommand argv
    ⊎ ((ps : List (Bytes × Bytes)) × (shell : List Bytes) × (argv
          ≡ remote_env ∷ (map spell ps ++ shell))
        × Environment ps
        × ShellCommand shell)

abbrev pub Accepted : Bytes → List Bytes → Type 0
Accepted e argv = (e ≡ encode_canonical_tokens argv) × (has_nul e ≡ false) × Command argv

check_shell_iff : (ts : List Bytes) → (check_shell ts ≡ none) ↔ ShellCommand ts
unfolding check_shell
check_shell_iff [] =
    ((λ h. absurd (ground (arith, h))), (λ (s, args, h, _). absurd (ground (arith, h))))
check_shell_iff (t ∷ []) =
    ((λ h. absurd (ground (arith, h))), (λ (s, args, h, _). absurd (ground (arith, h))))
check_shell_iff (t ∷ u ∷ []) =
    ((λ h. absurd (ground (arith, h))), (λ (s, args, h, _). absurd (ground (arith, h))))
check_shell_iff (t ∷ u ∷ [] ∷ args) = (
  (λ h. absurd (ground (arith, h))),
  (λ (script, more, same, some_script). absurd (some_script (third same))),
)
  where
    third :
        {script : Bytes} {more : List Bytes}
        → t ∷ u ∷ [] ∷ args ≡ remote_shell ∷ codes "-c" ∷ script ∷ more
        → script ≡ []
    third h = cc
check_shell_iff (t ∷ u ∷ (c ∷ s) ∷ args) = (
  (λ h.
      let shell = (bytes_eq_iff t remote_shell).0 (ground (arith, h)) in
      let flag = (bytes_eq_iff u (codes "-c")).0 (ground (arith, h)) in
      (c ∷ s, args, rw (shell, flag) refl, (λ e. cc))),
  (λ (script, more, same, _). shell_ok same),
)
  where
    shell_ok :
        {script : Bytes} {more : List Bytes}
        → t ∷ u ∷ (c ∷ s) ∷ args ≡ remote_shell ∷ codes "-c" ∷ script ∷ more
        → check_shell (t ∷ u ∷ (c ∷ s) ∷ args) ≡ none
    shell_ok h =
        let shell : t ≡ remote_shell = cc in
        let flag : u ≡ codes "-c" = cc in
        ground (arith, (bytes_eq_iff t remote_shell).1 shell, (bytes_eq_iff u (codes "-c")).1 flag)

check_command_sound :
    (tokens argv : List Bytes) (r : Result Error (List Bytes))
    → check_command tokens r ≡ ok argv
    → (shell : List Bytes) × (r ≡ ok shell) × ShellCommand shell × (argv ≡ tokens)
check_command_sound tokens argv (err e) h = absurd (ground (arith, h))
check_command_sound tokens argv (ok shell) h = elim (Option-cases (check_shell shell)) [
  | inr (e, failed) ↦ absurd (ground (arith, failed, h))
  | inl passed ↦ (shell, refl, (check_shell_iff shell).0 passed, ground (arith, passed, h))
]

check_command_complete :
    (tokens shell : List Bytes) → ShellCommand shell → check_command tokens (ok shell) ≡ ok tokens
check_command_complete tokens shell h = ground (arith, (check_shell_iff shell).1 h)

tokens-Command :
    (tokens shell : List Bytes)
    → shell_tokens tokens ≡ ok shell
    → ShellCommand shell
    → Command tokens
unfolding shell_tokens
tokens-Command [] shell h runs = inl (subst ShellCommand (ok_same h) runs)
  where
    ok_same : {l : List Bytes} → ◌≡◌ {A = Result Error (List Bytes)} (ok []) (ok l) → l ≡ []
    ok_same h = cc
tokens-Command (t ∷ ts) shell h runs = elim (Bool-cases (bytes_eq t remote_env)) [
  | inr bare ↦
      let same : shell ≡ t ∷ ts = ground (arith, bare, h) in inl (subst ShellCommand same runs)
  | inl env ↦
      let (ps, (split, environment, _, _, _)) =
        assignments_sound [] false ts shell (ground (arith, env, h)) in
      inr (
        ps,
        shell,
        ap₂ (λ x xs. x ∷ xs) ((bytes_eq_iff t remote_env).0 env) split,
        environment,
        runs,
      )
]

tokens_sound :
    (tokens argv : List Bytes)
    → check_command tokens (shell_tokens tokens) ≡ ok argv
    → (argv ≡ tokens) × Command tokens
unfolding shell_tokens
tokens_sound tokens argv h =
    let (shell, found, runs, same) = check_command_sound tokens argv (shell_tokens tokens) h in
    (same, tokens-Command tokens shell found runs)

All-fresh : (ps : List (Bytes × Bytes)) → All (λ p. is_seen p.0 [] ≡ false) ps
unfolding is_seen
All-fresh [] = tt
All-fresh (p ∷ ps) = (refl, All-fresh ps)

env_complete :
    (ps : List (Bytes × Bytes)) (rest : List Bytes)
    → Environment ps
    → ShellCommand (remote_shell ∷ rest)
    → check_command
        (remote_env ∷ (map spell ps ++ remote_shell ∷ rest))
        (shell_tokens (remote_env ∷ (map spell ps ++ remote_shell ∷ rest)))
      ≡ ok (remote_env ∷ (map spell ps ++ remote_shell ∷ rest))
unfolding shell_tokens bytes_eq
env_complete ps rest environment runs =
    let tokens = remote_env ∷ (map spell ps ++ remote_shell ∷ rest) in
    ap (check_command tokens)
      (assignments_complete [] false ps rest environment (All-fresh ps) (inl refl))
    ∙ check_command_complete tokens (remote_shell ∷ rest) runs

tokens_complete :
    (tokens : List Bytes) → Command tokens → check_command tokens (shell_tokens tokens) ≡ ok tokens
unfolding shell_tokens bytes_eq
tokens_complete tokens (inl (script, args, same, some_script)) = rw same (
    check_command_complete (remote_shell ∷ codes "-c" ∷ script ∷ args)
      (remote_shell ∷ codes "-c" ∷ script ∷ args) (script, args, refl, some_script))
tokens_complete tokens (inr (ps, shell, same, environment, (script, args, at_shell, some_script))) =
    rw (same, at_shell)
      (env_complete ps (codes "-c" ∷ script ∷ args) environment (script, args, refl, some_script))

canonical_sound :
    (e : Bytes) (argv : List Bytes) (r : Result Error (List Bytes))
    → check_canonical e r ≡ ok argv
    → (tokens : List Bytes) × (e ≡ encode_canonical_tokens tokens)
      × (check_command tokens (shell_tokens tokens) ≡ ok argv)
unfolding check_canonical
canonical_sound e argv (err x) h = absurd (ground (arith, h))
canonical_sound e argv (ok tokens) h =
    elim (Bool-cases (bytes_eq (encode_canonical_tokens tokens) e)) [
      | inl equal ↦ (tokens, sym ((bytes_eq_iff _ _).0 equal), ground (arith, equal, h))
      | inr differs ↦ absurd (ground (arith, differs, h))
    ]

decode_sound : (e : Bytes) (argv : List Bytes) → decode_remote_command e ≡ ok argv → Accepted e argv
unfolding decode_remote_command check_canonical
decode_sound [] argv h = absurd (ground (arith, h))
decode_sound (c ∷ s) argv h = elim (Bool-cases (has_nul (c ∷ s))) [
  | inl nul ↦ absurd (ground (arith, nul, h))
  | inr clean ↦
      let (tokens, spelled, rest) =
        canonical_sound (c ∷ s) argv (decode_canonical_tokens (c ∷ s)) (ground (arith, clean, h)) in
      let (same, command) = tokens_sound tokens argv rest in
      (spelled ∙ ap encode_canonical_tokens (sym same), clean, subst Command (sym same) command)
]

not_empty : ¬ Command []
not_empty (inl (script, args, same, _)) = absurd (ground (arith, same))
not_empty (inr (ps, shell, same, _, _)) = absurd (ground (arith, same))

decode_complete :
    (e : Bytes) (argv : List Bytes) → Accepted e argv → decode_remote_command e ≡ ok argv
unfolding decode_remote_command check_canonical
decode_complete e [] (spelled, clean, command) = absurd (not_empty command)
decode_complete [] (t ∷ ts) (spelled, clean, command) =
    let (s, head) = encoded_head t ts in absurd (ground (arith, spelled, head))
decode_complete (c ∷ s) (t ∷ ts) (spelled, clean, command) =
    let decoded = ap decode_canonical_tokens spelled ∙ decode-encode_canonical_tokens t ts in
    ground (
      arith,
      clean,
      decoded,
      (bytes_eq_iff (encode_canonical_tokens (t ∷ ts)) (c ∷ s)).1 (sym spelled),
      tokens_complete (t ∷ ts) command,
    )

-- An OpenClaw command is accepted exactly if it is the canonical spelling, without NUL, of an argv
-- that runs `/bin/sh -c` with a script that is not empty, possibly behind `env` and assignments
-- whose names are valid and distinct and where OPENCLAW_SHELL may only be `exec` and come last; and
-- then it is decoded to that argv.
pub decode_remote_command-Accepted :
    (e : Bytes) (argv : List Bytes) → (decode_remote_command e ≡ ok argv) ↔ Accepted e argv
decode_remote_command-Accepted e argv = (decode_sound e argv, decode_complete e argv)
