-- ===== src/Ssh/Examples.antt =====
-- The theorems on remote commands at concrete payloads, and tests of refusals.
use aries.Base.{
  List, ◌∷◌, [], Result, ok, err, ◌≡◌, refl, ◌↔◌, true, Bytes, codes, bytes_eq, cut_prefix,
  has_prefix, contains_func, one_of,
}
use aries.Ssh.Quote.{replace_quotes, single_quote, scan}
use aries.Ssh.Hermes.{
  Error, sync_denied, more_than_one_token, not_canonical, is_sync_payload, RemoteCommand,
  shlex_unsafe, shlex_quote, check_canonical, decode_shell_token, agent_command, decode_payload,
  decode_remote_command,
}
use aries.Ssh.Hermes.Token.{decode_shell_token_iff}
use aries.Ssh.Hermes.Command.{Accepted, decode_remote_command_iff}
use aries.Ssh.OpenClaw
use aries.Ssh.OpenClaw.{
  remote_shell, space, only_shell, out_of_fuel, next_token, tokens_loop, encode_canonical_tokens,
  decode_canonical_tokens, bad_name_byte, valid_environment_name, split_assignment, is_seen,
  check_name, assignments, shell_tokens, check_shell,
}
use aries.Ssh.OpenClaw.Tokens.{decode-encode_canonical_tokens}
use aries.Ssh.OpenClaw.Command

abbrev script : Bytes
script = codes "echo 'hi'; rm -rf /"

decode_shell_token_iff_example :
    (decode_shell_token (shlex_quote script) ≡ ok script)
    ↔ (shlex_quote script ≡ shlex_quote script)
decode_shell_token_iff_example = decode_shell_token_iff (shlex_quote script) script

abbrev payload : Bytes
payload = codes "bash -l -c 'ls -l'"

decode_remote_command_iff_example :
    (decode_remote_command payload ≡ ok (agent_command true (codes "ls -l")))
    ↔ Accepted payload (agent_command true (codes "ls -l"))
decode_remote_command_iff_example =
    decode_remote_command_iff payload (agent_command true (codes "ls -l"))

decode : Bytes → Result Error RemoteCommand
unfolding bytes_eq cut_prefix has_prefix contains_func one_of replace_quotes single_quote scan
    is_sync_payload shlex_unsafe shlex_quote check_canonical decode_shell_token decode_payload
    decode_remote_command
decode = decode_remote_command

accepted : decode payload ≡ ok (agent_command true (codes "ls -l"))
unfolding decode
accepted = refl

denied : decode (codes "tar xf - -C /root") ≡ err sync_denied
unfolding decode
denied = refl

chained : decode (codes "bash -c 'ls' ; rm x") ≡ err more_than_one_token
unfolding decode
chained = refl

needless_quotes : decode (codes "bash -c 'ls'") ≡ err not_canonical
unfolding decode
needless_quotes = refl

quoted : shlex_quote (codes "it's") ≡ codes "'it'\"'\"'s'"
unfolding decode
quoted = refl

-- env A=1 OPENCLAW_SHELL=exec /bin/sh -c "it's"
abbrev claw_argv : List Bytes
claw_argv =
    codes "env"
    ∷ codes "A=1"
    ∷ codes "OPENCLAW_SHELL=exec"
    ∷ codes "/bin/sh"
    ∷ codes "-c"
    ∷ codes "it's"
    ∷ []

decode-encode_canonical_tokens_example :
    decode_canonical_tokens (encode_canonical_tokens claw_argv) ≡ ok claw_argv
decode-encode_canonical_tokens_example =
    decode-encode_canonical_tokens (codes "env")
      (codes "A=1" ∷ codes "OPENCLAW_SHELL=exec" ∷ codes "/bin/sh" ∷ codes "-c" ∷ codes "it's" ∷ [])

decode_remote_command-Accepted_example :
    (OpenClaw.decode_remote_command (encode_canonical_tokens claw_argv) ≡ ok claw_argv)
    ↔ Command.Accepted (encode_canonical_tokens claw_argv) claw_argv
decode_remote_command-Accepted_example =
    Command.decode_remote_command-Accepted (encode_canonical_tokens claw_argv) claw_argv

claw_decode : Bytes → Result OpenClaw.Error (List Bytes)
unfolding bytes_eq cut_prefix has_prefix contains_func one_of replace_quotes single_quote scan
    next_token tokens_loop encode_canonical_tokens decode_canonical_tokens bad_name_byte
    valid_environment_name split_assignment is_seen check_name assignments shell_tokens check_shell
    OpenClaw.check_canonical OpenClaw.decode_remote_command
claw_decode = OpenClaw.decode_remote_command

claw_accepted :
    claw_decode (codes "'env' 'A=1' '/bin/sh' '-c' 'ls' 'x'")
    ≡ ok (codes "env" ∷ codes "A=1" ∷ codes "/bin/sh" ∷ codes "-c" ∷ codes "ls" ∷ codes "x" ∷ [])
unfolding claw_decode
claw_accepted = refl

claw_repeated :
    claw_decode (codes "'env' 'A=1' 'A=2' '/bin/sh' '-c' 'ls'") ≡ err OpenClaw.repeated_name
unfolding claw_decode
claw_repeated = refl

claw_spacing : claw_decode (codes "'/bin/sh'  '-c' 'ls'") ≡ err OpenClaw.empty_spacing
unfolding claw_decode
claw_spacing = refl

claw_other : claw_decode (codes "'rm' '-c' 'ls'") ≡ err only_shell
unfolding claw_decode
claw_other = refl
