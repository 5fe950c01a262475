-- ===== src/Ssh/Hermes/Command.antt =====
-- pkg/bridge/ssh/hermes/grammar.go: `decodeRemoteCommand` accepts four shapes and no other.
use aries.Base.{
  Result, ok, err, ◌≡◌, ◌≢◌, refl, sym, ap, ◌∙◌, ◌↔◌, ◌⊎◌, inl, inr, Bool, true, false, [], ◌∷◌,
  ◌++◌, none, arith, Bytes, codes, bytes_eq, contains_func, one_of, has_prefix, cut_prefix,
  bytes_eq_iff, Bool-cases, Option-cases, cut_prefix_sound, cut_prefix-append, contains_func-append,
}
use aries.Ssh.Quote.{quote, single_quote, replace_quotes}
use aries.Ssh.Hermes.{
  Error, RemoteCommand, connection_probe_payload, remote_home_payload, login_prefix, plain_prefix,
  is_sync_payload, shlex_quote, decode_shell_token, agent_command, bootstrap_command, check_script,
  decode_plain, decode_login, decode_payload, decode_remote_command,
}
use aries.Ssh.Hermes.Token.{decode_shell_token_iff, decode-quote}

abbrev pub has_nul : Bytes → Bool
has_nul s = contains_func (one_of (0 ∷ [])) s

abbrev pub shell_prefix : Bool → Bytes
shell_prefix true = login_prefix
shell_prefix false = plain_prefix

abbrev pub AgentShape : Bytes → RemoteCommand → Type 0
AgentShape e c =
    (login : Bool) × (script : Bytes) × (script ≢ [])
    × (has_nul script ≡ false)
    × (e ≡ shell_prefix login ++ shlex_quote script)
    × (c ≡ agent_command login script)

-- The connection probe, the home probe, or one script for bash, quoted, with or without `-l`.
abbrev pub Accepted : Bytes → RemoteCommand → Type 0
Accepted e c =
    ((e ≡ connection_probe_payload) × (c ≡ bootstrap_command (codes "SSH connection established")))
    ⊎ (((e ≡ remote_home_payload) × (c ≡ bootstrap_command (codes "$HOME"))) ⊎ AgentShape e c)

has_nul-replace_quotes : (s : Bytes) → has_nul (replace_quotes s) ≡ has_nul s
unfolding replace_quotes contains_func one_of
has_nul-replace_quotes [] = refl
has_nul-replace_quotes (c ∷ s) = ground (arith, has_nul-replace_quotes s)

has_nul-single_quote : (s : Bytes) → has_nul (single_quote s) ≡ has_nul s
unfolding single_quote contains_func one_of
has_nul-single_quote s = ground (
  arith,
  contains_func-append (one_of (0 ∷ [])) (replace_quotes s) (quote ∷ []),
  has_nul-replace_quotes s,
)

has_nul-shlex_quote : (s : Bytes) → has_nul (shlex_quote s) ≡ has_nul s
unfolding shlex_quote
has_nul-shlex_quote [] = unfold contains_func one_of in refl
has_nul-shlex_quote (c ∷ s) = ground (arith, has_nul-single_quote (c ∷ s))

has_nul-prefix :
    (login : Bool) (s : Bytes) → has_nul (shell_prefix login ++ shlex_quote s) ≡ has_nul s
unfolding contains_func one_of
has_nul-prefix true s = has_nul-shlex_quote s
has_nul-prefix false s = has_nul-shlex_quote s

check_script_sound :
    (login : Bool) (e : Bytes) (c : RemoteCommand) (r : Result Error Bytes)
    → check_script login r ≡ ok c
    → (script : Bytes) × (script ≢ []) × (r ≡ ok script) × (c ≡ agent_command login script)
check_script_sound login e c (err x) h = cc
check_script_sound login e c (ok []) h = cc
check_script_sound login e c (ok (x ∷ s)) h = (x ∷ s, (λ k. cc), refl, ground (arith, h))

-- A payload behind one of the two prefixes.
shape :
    (login : Bool) (e remainder : Bytes) (c : RemoteCommand)
    → has_nul e ≡ false
    → e ≡ shell_prefix login ++ remainder
    → check_script login (decode_shell_token remainder) ≡ ok c
    → AgentShape e c
shape login e remainder c clean split h =
    let (script, some_script, decoded, same) =
      check_script_sound login e c (decode_shell_token remainder) h in
    let spelled =
      split
      ∙ ap (λ r. shell_prefix login ++ r) ((decode_shell_token_iff remainder script).0 decoded) in
    (
      login,
      script,
      some_script,
      sym (has_nul-prefix login script) ∙ ap has_nul (sym spelled) ∙ clean,
      spelled,
      same,
    )

err-ne-ok : {x : Error} {c : RemoteCommand} → ◌≢◌ {A = Result Error RemoteCommand} (err x) (ok c)
err-ne-ok h = cc

refused : {c : RemoteCommand} → decode_plain none ≢ ok c
refused h = cc

decode_login_sound :
    (e : Bytes) (c : RemoteCommand)
    → has_nul e ≡ false
    → decode_login e (cut_prefix e login_prefix) ≡ ok c
    → AgentShape e c
decode_login_sound e c clean h = elim (Option-cases (cut_prefix e login_prefix)) [
  | inr (remainder, cut) ↦
      shape true e remainder c clean (cut_prefix_sound e login_prefix remainder cut) (rw cut at h)
  | inl not_login ↦ elim (Option-cases (cut_prefix e plain_prefix)) [
    | inr (remainder, cut) ↦
        shape false e remainder c clean (cut_prefix_sound e plain_prefix remainder cut)
          (ap decode_plain (sym cut) ∙ ap (decode_login e) (sym not_login) ∙ h)
    | inl neither ↦
        absurd (refused (ap decode_plain (sym neither) ∙ ap (decode_login e) (sym not_login) ∙ h))
  ]
]

decode_payload_sound :
    (e : Bytes) (c : RemoteCommand) → has_nul e ≡ false → decode_payload e ≡ ok c → Accepted e c
unfolding decode_payload
decode_payload_sound e c clean h = elim (Bool-cases (bytes_eq e connection_probe_payload)) [
  | inl probe ↦ inl ((bytes_eq_iff _ _).0 probe, ground (arith, probe, h))
  | inr not_probe ↦ elim (Bool-cases (bytes_eq e remote_home_payload)) [
    | inl home ↦ inr (inl ((bytes_eq_iff _ _).0 home, ground (arith, not_probe, home, h)))
    | inr not_home ↦ elim (Bool-cases (is_sync_payload e)) [
      | inl sync ↦ absurd (err-ne-ok (rw (not_probe, not_home, sync) at h))
      | inr not_sync ↦
          inr (inr (decode_login_sound e c clean (rw (not_probe, not_home, not_sync) at h)))
    ]
  ]
]

decode_sound : (e : Bytes) (c : RemoteCommand) → decode_remote_command e ≡ ok c → Accepted e c
unfolding decode_remote_command
decode_sound [] c h = cc
decode_sound (x ∷ e) c h = elim (Bool-cases (has_nul (x ∷ e))) [
  | inl nul ↦ absurd (err-ne-ok (rw nul at h))
  | inr clean ↦ decode_payload_sound (x ∷ e) c clean (rw clean at h)
]

check_script-ok :
    (login : Bool) (script : Bytes)
    → script ≢ []
    → check_script login (ok script) ≡ ok (agent_command login script)
check_script-ok login [] h = absurd (h refl)
check_script-ok login (c ∷ s) h = refl

decode_prefix :
    (login : Bool) (s : Bytes)
    → has_nul (shell_prefix login ++ s) ≡ false
    → decode_remote_command (shell_prefix login ++ s) ≡ check_script login (decode_shell_token s)
unfolding decode_remote_command decode_payload is_sync_payload bytes_eq has_prefix cut_prefix
decode_prefix true s clean =
    rw clean (ap (decode_login (login_prefix ++ s)) (cut_prefix-append login_prefix s))
decode_prefix false s clean = rw clean (ap decode_plain (cut_prefix-append plain_prefix s))

decode_complete : (e : Bytes) (c : RemoteCommand) → Accepted e c → decode_remote_command e ≡ ok c
decode_complete e c (inl (probe, same)) =
    rw (probe, same)
      (unfold decode_remote_command decode_payload contains_func one_of bytes_eq in refl)
decode_complete e c (inr (inl (home, same))) =
    rw (home, same)
      (unfold decode_remote_command decode_payload contains_func one_of bytes_eq in refl)
decode_complete e c (inr (inr (login, script, some_script, clean, spelled, same))) =
    rw (spelled, same)
      (decode_prefix login (shlex_quote script) (has_nul-prefix login script ∙ clean)
        ∙ ap (check_script login) (decode-quote script)
        ∙ check_script-ok login script some_script)

-- A remote command is accepted exactly in four shapes, and decoded to what they say: the connection
-- probe, the home probe, and `bash -c` or `bash -l -c` behind which stands nothing but the quoting
-- of one script that is not empty and holds no NUL. All else is refused, file sync included.
pub decode_remote_command_iff :
    (e : Bytes) (c : RemoteCommand) → (decode_remote_command e ≡ ok c) ↔ Accepted e c
decode_remote_command_iff e c = (decode_sound e c, decode_complete e c)
