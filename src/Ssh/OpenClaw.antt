-- ===== src/Ssh/OpenClaw.antt =====
-- pkg/bridge/ssh/openclaw/grammar.go: the remote commands that OpenClaw may send over SSH.
pub mod Tokens
pub mod Environment
pub mod Assignments
pub mod Command
use aries.Base.{
  ℕ, zero, suc, Bool, true, false, ◌&&◌, ◌||◌, not, List, [], ◌∷◌, ◌++◌, Option, none, some, ◌==◌,
  if◌then◌else◌, Bytes, codes, bytes_eq, contains_func, one_of, between, length, Result, ok, err,
}
use aries.Ssh.Quote.{quote, single_quote, scan}

-- The refusals, in the order of the source. The last one is no refusal of the source: the fuel of
-- the loop over tokens, which is the length of the text, does not run out.
pub data Error : Type 0 where
  empty_or_nul not_canonical malformed_assignment invalid_name shell_not_last not_allowed : Error
  repeated_name only_shell empty_script not_quoted unterminated_quote not_separated : Error
  empty_spacing no_tokens out_of_fuel : Error

abbrev pub remote_shell : Bytes
remote_shell = codes "/bin/sh"

abbrev pub remote_env : Bytes
remote_env = codes "env"

abbrev pub space : ℕ
space = b' '

-- What stands behind a token: the end, or a space and the text of the next token.
unfoldable pub next_token : Bytes → Result Error (Option Bytes)
next_token [] = ok none
next_token (c ∷ []) = if c == space then err empty_spacing else err not_separated
next_token (c ∷ d ∷ s) =
    if c == space
    then if d == space then err empty_spacing else ok (some (d ∷ s))
    else err not_separated

-- The loop of `decodeCanonicalTokens`, with the text from `position` on and the tokens so far.
unfoldable pub tokens_loop : ℕ → Bytes → List Bytes → Result Error (List Bytes)
tokens_loop fuel [] tokens = ok tokens
tokens_loop zero (c ∷ s) tokens = err out_of_fuel
tokens_loop (suc fuel) (c ∷ s) tokens = elim (c == quote) [
  | false ↦ err not_quoted
  | true ↦ elim (scan zero s []) [
    | none ↦ err unterminated_quote
    | some (value, rest) ↦ elim (next_token rest) [
      | err e ↦ err e
      | ok none ↦ ok (tokens ++ value ∷ [])
      | ok (some s') ↦ tokens_loop fuel s' (tokens ++ value ∷ [])
    ]
  ]
]

abbrev pub check_tokens : Result Error (List Bytes) → Result Error (List Bytes)
check_tokens (err e) = err e
check_tokens (ok []) = err no_tokens
check_tokens (ok (t ∷ ts)) = ok (t ∷ ts)

unfoldable pub decode_canonical_tokens : Bytes → Result Error (List Bytes)
decode_canonical_tokens encoded = check_tokens (tokens_loop (length encoded) encoded [])

-- `strings.Join` of the quoted tokens.
unfoldable pub encode_canonical_tokens : List Bytes → Bytes
encode_canonical_tokens [] = []
encode_canonical_tokens (t ∷ []) = single_quote t
encode_canonical_tokens (t ∷ u ∷ ts) = single_quote t ++ space ∷ encode_canonical_tokens (u ∷ ts)

abbrev pub is_letter : ℕ → Bool
is_letter c = c == b'_' || (between b'A' b'Z' c || between b'a' b'z' c)

-- The bytes of a character beyond ASCII are neither letters nor digits, as the character is.
unfoldable pub bad_name_byte : ℕ → Bool
bad_name_byte c = not (is_letter c || between b'0' b'9' c)

unfoldable pub valid_environment_name : Bytes → Bool
valid_environment_name [] = false
valid_environment_name (c ∷ s) = is_letter c && not (contains_func bad_name_byte s)

-- `strings.IndexByte(assignment, '=')`: what stands before and behind it.
unfoldable pub split_assignment : Bytes → Option (Bytes × Bytes)
split_assignment [] = none
split_assignment (c ∷ s) =
    if c == b'='
    then some ([], s)
    else elim (split_assignment s) [ none ↦ none | some (name, value) ↦ some (c ∷ name, value) ]

abbrev pub open_claw_shell : Bytes
open_claw_shell = codes "OPENCLAW_SHELL"

-- `_, exists := seen[name]`
unfoldable pub is_seen : Bytes → List Bytes → Bool
is_seen name [] = false
is_seen name (n ∷ seen) = bytes_eq name n || is_seen name seen

-- The tests on one assignment behind its split; `saw` is `sawOpenClawShell`.
unfoldable pub check_name : List Bytes → Bool → Bytes → Bytes → Result Error Bytes
check_name seen saw name value =
    if not (valid_environment_name name)
    then err invalid_name
    else if saw
    then err shell_not_last
    else if bytes_eq name open_claw_shell && not (bytes_eq value (codes "exec"))
    then err not_allowed
    else if is_seen name seen
    then err repeated_name
    else ok name

abbrev pub check_split : List Bytes → Bool → Option (Bytes × Bytes) → Result Error Bytes
check_split seen saw none = err malformed_assignment
check_split seen saw (some ([], value)) = err malformed_assignment
check_split seen saw (some (c ∷ name, value)) = check_name seen saw (c ∷ name) value

-- The loop over the assignments, up to the shell: the tokens from `shellIndex` on.
unfoldable pub assignments : List Bytes → Bool → List Bytes → Result Error (List Bytes)
assignments seen saw [] = ok []
assignments seen saw (t ∷ ts) = elim (bytes_eq t remote_shell) [
  | true ↦ ok (t ∷ ts)
  | false ↦ elim (check_split seen saw (split_assignment t)) [
    | err e ↦ err e
    | ok name ↦ assignments (name ∷ seen) (bytes_eq name open_claw_shell) ts
  ]
]

-- `shellIndex` behind the environment, if there is one.
unfoldable pub shell_tokens : List Bytes → Result Error (List Bytes)
shell_tokens [] = ok []
shell_tokens (t ∷ ts) = if bytes_eq t remote_env then assignments [] false ts else ok (t ∷ ts)

unfoldable pub check_shell : List Bytes → Option Error
check_shell (sh ∷ c ∷ script ∷ args) =
    if bytes_eq sh remote_shell && bytes_eq c (codes "-c")
    then elim script [ [] ↦ some empty_script | _ ∷ _ ↦ none ]
    else some only_shell
check_shell _ = some only_shell

abbrev pub check_command : List Bytes → Result Error (List Bytes) → Result Error (List Bytes)
check_command tokens (err e) = err e
check_command tokens (ok shell) = elim (check_shell shell) [ some e ↦ err e | none ↦ ok tokens ]

-- Behind the decoding: the canonical spelling, the environment, the shell.
unfoldable pub check_canonical : Bytes → Result Error (List Bytes) → Result Error (List Bytes)
check_canonical encoded (err e) = err e
check_canonical encoded (ok tokens) =
    if bytes_eq (encode_canonical_tokens tokens) encoded
    then check_command tokens (shell_tokens tokens)
    else err not_canonical

-- The argv of the command.
unfoldable pub decode_remote_command : Bytes → Result Error (List Bytes)
decode_remote_command [] = err empty_or_nul
decode_remote_command (c ∷ s) =
    if contains_func (one_of (0 ∷ [])) (c ∷ s)
    then err empty_or_nul
    else check_canonical (c ∷ s) (decode_canonical_tokens (c ∷ s))
