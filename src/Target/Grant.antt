-- ===== src/Target/Grant.antt =====
-- pkg/bridge/target/target.go: `Validate`, and the calls of `Borrowed` under its revocation.
use aries.Base.{
  ℕ, ℤ, pos, Bool, true, false, ◌&&◌, ◌||◌, not, [], ◌∷◌, Option, none, some, ltb, leb, ◌==◌,
  if◌then◌else◌, Bytes, codes, bytes_eq, contains_func, one_of, length, Result, ok, err,
}
use aries.Core.Errors.{GoError, message, wrapped}
use aries.Sandbox.Checks.{Command, is_latin, is_digit, prepare_command}
use aries.Sandbox.Transfer.{CommandResult, no_result}
use aries.Sandbox.Export.{BridgeTarget}

-- The bytes that an identity may not hold: a slash, a backslash, NUL and line ends.
abbrev pub breaks_identity : ℕ → Bool
breaks_identity c = one_of (47 ∷ 92 ∷ 0 ∷ 13 ∷ 10 ∷ []) c

abbrev pub breaks_runtime : ℕ → Bool
breaks_runtime c = one_of (0 ∷ 13 ∷ 10 ∷ []) c

unfoldable pub bad_identity : Bytes → Bool
bad_identity v =
    bytes_eq v []
    || (ltb 256 (length v)
        || (contains_func breaks_identity v || (bytes_eq v (codes ".") || bytes_eq v (codes ".."))))

unfoldable pub bad_runtime_id : Bytes → Bool
bad_runtime_id v = bytes_eq v [] || (ltb 1024 (length v) || contains_func breaks_runtime v)

-- `^[a-zA-Z0-9][a-zA-Z0-9_.-]{0,127}$`
abbrev pub backend_char : ℕ → Bool
backend_char c = (is_latin c || is_digit c) || (c == 95 || (c == 46 || c == 45))

unfoldable pub is_backend : Bytes → Bool
is_backend [] = false
is_backend (c ∷ s) =
    (is_latin c || is_digit c)
    && (leb (length s) 127 && not (contains_func (λ d. not (backend_char d)) s))

abbrev pub probe : Command
probe = record {
  path = codes "/bin/true";
  args = [];
  dir = [];
  env = [];
  timeout = pos 0;
  user = [];
  output_limit_bytes = pos 0;
}

unfoldable pub validate_target : BridgeTarget → Option GoError
validate_target d =
    if bad_identity d.run_id || (bad_identity d.task_id || bad_identity d.sandbox_id)
    then some (message "invalid bridge target identity")
    else if bad_runtime_id d.runtime_id
    then some (message "invalid immutable runtime identity")
    else if not (is_backend d.backend)
    then some (message "invalid bridge target backend identifier")
    else elim (prepare_command probe d.workdir d.exec_user) [
      | err e ↦ some (wrapped "invalid bridge target defaults" e)
      | ok _ ↦ none
    ]

-- fs.FileInfo, as its size and whether the file is regular.
pub record FileInfo : Type 0 where
  pub size : ℤ
  pub is_regular : Bool

-- What a bridge may ask of the backend for its one runtime.
pub record Backend (W : Type 0) : Type 0 where
  pub validate_bridge_target : BridgeTarget → W → W × Option GoError
  pub exec_stream : Bytes → Command → Bytes → W → W × CommandResult × Option GoError
  pub stat_file : Bytes → Bytes → W → W × Result GoError FileInfo
  pub open_file : Bytes → Bytes → W → W × Result GoError (Bytes × FileInfo)
  pub write_file : Bytes → Bytes → Bytes → ℤ → Bytes → W → W × Bool × Option GoError

pub record Borrowed : Type 0 where
  pub revoked : Bool
  pub descriptor : BridgeTarget

abbrev pub admission_closed : GoError
admission_closed = message "bridge target admission closed"

unfoldable pub revoke : Borrowed → Borrowed
revoke b = record b { revoked = true }

module _ {W : Type 0} (backend : Backend W) where
  unfoldable pub borrow : BridgeTarget → W → W × Result GoError Borrowed
  borrow d w =
      let (w1, failure) = backend.validate_bridge_target d w in
      elim (validate_target d) [
        | some e ↦ (w, err e)
        | none ↦ elim failure [
          | some e ↦ (w1, err e)
          | none ↦ (w1, ok (record { revoked = false; descriptor = d }))
        ]
      ]

  unfoldable pub borrowed_exec : Borrowed → Command → Bytes → W → W × CommandResult × Option GoError
  borrowed_exec b command stdin w =
      if b.revoked
      then (w, no_result, some admission_closed)
      else elim (prepare_command command b.descriptor.workdir b.descriptor.exec_user) [
        | err e ↦ (w, no_result, some e)
        | ok prepared ↦ backend.exec_stream b.descriptor.runtime_id prepared stdin w
      ]

  unfoldable pub borrowed_stat : Borrowed → Bytes → W → W × Result GoError FileInfo
  borrowed_stat b path w =
      if b.revoked
      then (w, err admission_closed)
      else backend.stat_file b.descriptor.runtime_id path w

  unfoldable pub borrowed_open : Borrowed → Bytes → W → W × Result GoError (Bytes × FileInfo)
  borrowed_open b path w =
      if b.revoked
      then (w, err admission_closed)
      else backend.open_file b.descriptor.runtime_id path w

  unfoldable pub borrowed_write : Borrowed → Bytes → Bytes → ℤ → W → W × Bool × Option GoError
  borrowed_write b path content size w =
      if b.revoked
      then (w, false, some admission_closed)
      else backend.write_file b.descriptor.runtime_id path content size b.descriptor.exec_user w
