-- ===== src/Sandbox/Checks.antt =====
-- pkg/sandbox/sandbox.go and bridge.go: the checks on identities, users, commands and environments.
-- Texts are bytes here; every byte beyond ASCII belongs to a rune that the checks refuse, or to text
-- that they only look for NUL in.
use aries.Base.{
  ℕ, ℤ, pos, negsuc, ◌+◌, ◌-◌, ◌*◌, ◌^◌, Bool, true, false, ◌&&◌, ◌||◌, not, List, [], ◌∷◌, Option,
  none, some, between, ◌==◌, ltb, leb, if◌then◌else◌, Bytes, codes, bytes_eq, contains_func, length,
  Result, ok, err,
}
use aries.Core.Errors.{GoError, message, wrapped}
use aries.Core.Types.{Duration}
use aries.Sandbox.Path.{is_nul, clean_container_path, clean_container_workdir}

abbrev pub is_latin : ℕ → Bool
is_latin c = between 97 122 c || between 65 90 c

abbrev pub is_digit : ℕ → Bool
is_digit c = between 48 57 c

-- `validateIdentity`. The limit is 149 for a task and 128 for a run.
abbrev pub identity_char : ℕ → Bool
identity_char c = is_latin c || is_digit c

abbrev pub later_identity_char : ℕ → Bool
later_identity_char c = identity_char c || (c == 45 || (c == 95 || c == 46))

abbrev pub identity_limit : Bytes → ℕ
identity_limit kind = if bytes_eq kind (codes "task") then 149 else 128

unfoldable pub is_identity : Bytes → Bool
is_identity [] = false
is_identity (c ∷ s) = identity_char c && not (contains_func (λ d. not (later_identity_char d)) s)

unfoldable pub validate_identity : Bytes → Bytes → Option GoError
validate_identity kind value =
    if bytes_eq value [] || ltb (identity_limit kind) (length value)
    then some (message "sandbox ID must contain 1 to limit characters")
    else if is_identity value
    then none
    else some (message "sandbox ID contains an unsafe character")

unfoldable pub valid_env_name : Bytes → Bool
valid_env_name [] = false
valid_env_name (c ∷ s) =
    (c == 95 || is_latin c)
    && not (contains_func (λ d. not (d == 95 || (is_latin d || is_digit d))) s)

-- `strings.Cut(value, ":")`: what stands before and after the first colon.
unfoldable pub cut_colon : Bytes → Option (Bytes × Bytes)
cut_colon [] = none
cut_colon (c ∷ s) =
    let rest = cut_colon s in
    if c == 58 then some ([], s) else elim rest [ none ↦ none | some (a, b) ↦ some (c ∷ a, b) ]

-- `strconv.ParseUint(s, 10, 32)`: the number that the digits write. The count is exact, so the test
-- against 2 ^ 32 stands at the end.
unfoldable pub decimal : ℕ → Bytes → Option ℕ
decimal n [] = some n
decimal n (c ∷ s) = if is_digit c then decimal (n * 10 + (c - 48)) s else none

unfoldable pub parse_uint32 : Bytes → Option ℕ
parse_uint32 [] = none
parse_uint32 (c ∷ s) = elim (decimal 0 (c ∷ s)) [
  | none ↦ none
  | some n ↦ if ltb n (2 ^ 32) then some n else none
]

-- The user and the group that an exec user names.
unfoldable pub user_ids : Bytes → Option (ℕ × ℕ)
user_ids value = elim (cut_colon value) [
  | none ↦ none
  | some (uid, gid) ↦ elim (parse_uint32 uid) [
    | none ↦ none
    | some u ↦ elim (parse_uint32 gid) [ none ↦ none | some g ↦ some (u, g) ]
  ]
]

unfoldable pub validate_exec_user : Bytes → Option GoError
validate_exec_user [] = none
validate_exec_user (c ∷ s) = elim (user_ids (c ∷ s)) [
  | some _ ↦ none
  | none ↦ some (message "exec user must be a numeric UID:GID pair")
]

-- A map from texts to texts, as its entries.
abbrev pub valid_variables : List (Bytes × Bytes) → Bool
valid_variables [] = true
valid_variables ((key, value) ∷ env) =
    valid_env_name key && (not (contains_func is_nul value) && valid_variables env)

-- core.Command, but for the standard input, which is not looked at here.
pub record Command : Type 0 where
  pub path : Bytes
  pub args : List Bytes
  pub dir : Bytes
  pub env : List (Bytes × Bytes)
  pub timeout : Duration
  pub user : Bytes
  pub output_limit_bytes : ℤ

abbrev pub max_configured_output : ℕ
max_configured_output = 1073741824

abbrev pub is_negative : ℤ → Bool
is_negative (pos n) = false
is_negative (negsuc n) = true

abbrev pub within : ℕ → ℤ → Bool
within n (pos m) = leb m n
within n (negsuc m) = false

abbrev pub nul_free : List Bytes → Bool
nul_free [] = true
nul_free (a ∷ as') = not (contains_func is_nul a) && nul_free as'

-- What is checked after the path, the directory and the user.
unfoldable pub validate_limits : Command → Option GoError
validate_limits c =
    if is_negative c.timeout
    then some (message "command timeout must be nonnegative")
    else if not (within max_configured_output c.output_limit_bytes)
    then some (message "command output limit must be between 0 and maxConfiguredOutput bytes")
    else if not (nul_free c.args)
    then some (message "command argument contains NUL")
    else if not (valid_variables c.env)
    then some (message "invalid command environment")
    else none

-- An optional directory.
unfoldable pub validate_workdir : Bytes → Option GoError
validate_workdir [] = none
validate_workdir (c ∷ s) = elim (clean_container_workdir (c ∷ s)) [ err e ↦ some e | ok _ ↦ none ]

unfoldable pub validate_command : Command → Option GoError
validate_command c = elim (clean_container_path c.path) [
  | err e ↦ some (wrapped "invalid command path" e)
  | ok _ ↦ elim (validate_workdir c.dir) [
    | some e ↦ some (wrapped "invalid command workdir" e)
    | none ↦ elim (validate_exec_user c.user) [
      | some e ↦ some (wrapped "invalid command user" e)
      | none ↦ validate_limits c
    ]
  ]
]

abbrev pub or_default : Bytes → Bytes → Bytes
or_default [] d = d
or_default (c ∷ s) d = c ∷ s

unfoldable pub with_defaults : Bytes → Bytes → Command → Command
with_defaults workdir user c = record c {
  dir = or_default c.dir workdir;
  user = or_default c.user user;
}

-- `PrepareCommand`, in bridge.go.
unfoldable pub prepare_command : Command → Bytes → Bytes → Result GoError Command
prepare_command c workdir user = elim (validate_command c) [
  | some e ↦ err e
  | none ↦ elim (validate_command (with_defaults workdir user c)) [
    | some e ↦ err e
    | none ↦ ok (with_defaults workdir user c)
  ]
]
