-- ===== src/Ssh/Hermes.antt =====
-- pkg/bridge/ssh/hermes/grammar.go: the remote commands that Hermes may send over SSH.
pub mod Token
pub mod Command
use aries.Base.{
  between, ℕ, zero, Bool, true, false, ◌&&◌, ◌||◌, not, String, List, [], ◌∷◌, ◌++◌, Option, none,
  some, ◌==◌, leb, if◌then◌else◌, Bytes, codes, bytes_eq, cut_prefix, has_prefix, contains_func,
  one_of, Result, ok, err,
}
use aries.Ssh.Quote.{quote, single_quote, replace_quotes, scan}

-- The refusals, in the order of the source.
pub data Error : Type 0 where
  empty_or_nul sync_denied only_bash empty_script : Error
  no_token not_one_token unterminated_quote more_than_one_token not_canonical : Error

-- The kinds of an accepted command; a refused one is recorded as `sync` or `unknown`.
pub data Kind : Type 0 where
  agent bootstrap sync unknown : Kind

pub record RemoteCommand : Type 0 where
  pub argv : List Bytes
  pub script : Bytes
  pub login : Bool
  pub kind : Kind

abbrev pub remote_shell : Bytes
remote_shell = codes "bash"

abbrev pub remote_echo : Bytes
remote_echo = codes "echo"

abbrev pub connection_probe_payload : Bytes
connection_probe_payload = codes "echo 'SSH connection established'"

abbrev pub remote_home_payload : Bytes
remote_home_payload = codes "echo $HOME"

-- `remoteShell + " -l -c "` and `remoteShell + " -c "`.
abbrev pub login_prefix : Bytes
login_prefix = codes "bash -l -c "

abbrev pub plain_prefix : Bytes
plain_prefix = codes "bash -c "

abbrev pub sync_payload_prefixes : List Bytes
sync_payload_prefixes =
    codes "mkdir -p " ∷ codes "tar xf " ∷ codes "tar cf " ∷ codes "rm -f " ∷ codes "scp " ∷ []

abbrev pub has_any_prefix : List Bytes → Bytes → Bool
has_any_prefix [] encoded = false
has_any_prefix (p ∷ ps) encoded = has_prefix encoded p || has_any_prefix ps encoded

unfoldable pub is_sync_payload : Bytes → Bool
is_sync_payload encoded = has_any_prefix sync_payload_prefixes encoded

-- The bytes of a character beyond ASCII are unsafe, as the character is.
unfoldable pub shlex_unsafe : ℕ → Bool
unfolding one_of
shlex_unsafe c = not (
    between b'a' b'z' c
    || between b'A' b'Z' c
    || between b'0' b'9' c
    || one_of (codes "_@%+=:,./-") c)

unfoldable pub shlex_quote : Bytes → Bytes
shlex_quote [] = quote ∷ quote ∷ []
shlex_quote (c ∷ s) = if contains_func shlex_unsafe (c ∷ s) then single_quote (c ∷ s) else c ∷ s

-- `strings.ContainsAny(encoded, " \t\n\r'\"\\")`.
abbrev pub separators : Bytes
separators = b' ' ∷ 9 ∷ 10 ∷ 13 ∷ b'\'' ∷ b'"' ∷ b'\\' ∷ []

unfoldable pub check_canonical : Bytes → Bytes → Result Error Bytes
check_canonical encoded decoded =
    if bytes_eq (shlex_quote decoded) encoded then ok decoded else err not_canonical

-- What the loop over a quoted token returned: the value, and what is left behind it.
abbrev pub check_quoted : Bytes → Option (Bytes × Bytes) → Result Error Bytes
check_quoted encoded none = err unterminated_quote
check_quoted encoded (some (value, [])) = check_canonical encoded value
check_quoted encoded (some (value, c ∷ rest)) = err more_than_one_token

unfoldable pub decode_shell_token : Bytes → Result Error Bytes
decode_shell_token [] = err no_token
decode_shell_token (c ∷ s) =
    if c == quote
    then check_quoted (c ∷ s) (scan zero s [])
    else if contains_func (one_of separators) (c ∷ s)
    then err not_one_token
    else check_canonical (c ∷ s) (c ∷ s)

abbrev pub agent_argv : Bool → Bytes → List Bytes
agent_argv true script = remote_shell ∷ codes "-l" ∷ codes "-c" ∷ script ∷ []
agent_argv false script = remote_shell ∷ codes "-c" ∷ script ∷ []

abbrev pub agent_command : Bool → Bytes → RemoteCommand
agent_command login script = record {
  argv = agent_argv login script;
  script = script;
  login = login;
  kind = agent;
}

abbrev pub bootstrap_command : Bytes → RemoteCommand
bootstrap_command argument = record {
  argv = remote_echo ∷ argument ∷ [];
  script = [];
  login = false;
  kind = bootstrap;
}

abbrev pub check_script : Bool → Result Error Bytes → Result Error RemoteCommand
check_script login (err e) = err e
check_script login (ok []) = err empty_script
check_script login (ok (c ∷ script)) = ok (agent_command login (c ∷ script))

abbrev pub decode_plain : Option Bytes → Result Error RemoteCommand
decode_plain none = err only_bash
decode_plain (some remainder) = check_script false (decode_shell_token remainder)

abbrev pub decode_login : Bytes → Option Bytes → Result Error RemoteCommand
decode_login encoded none = decode_plain (cut_prefix encoded plain_prefix)
decode_login encoded (some remainder) = check_script true (decode_shell_token remainder)

unfoldable pub decode_payload : Bytes → Result Error RemoteCommand
decode_payload encoded =
    if bytes_eq encoded connection_probe_payload
    then ok (bootstrap_command (codes "SSH connection established"))
    else if bytes_eq encoded remote_home_payload
    then ok (bootstrap_command (codes "$HOME"))
    else if is_sync_payload encoded
    then err sync_denied
    else decode_login encoded (cut_prefix encoded login_prefix)

unfoldable pub decode_remote_command : Bytes → Result Error RemoteCommand
decode_remote_command [] = err empty_or_nul
decode_remote_command (c ∷ s) =
    if contains_func (one_of (0 ∷ [])) (c ∷ s) then err empty_or_nul else decode_payload (c ∷ s)
