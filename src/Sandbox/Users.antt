-- ===== src/Sandbox/Users.antt =====
-- pkg/sandbox/sandbox.go and bridge.go: the users and the commands that are accepted.
use aries.Base.{
  ℕ, ◌+◌, ◌-◌, ◌*◌, ◌^◌, Bool, true, false, ◌&&◌, [], ◌∷◌, ◌++◌, none, some, ◌==◌, Bytes, length,
  ok, ◌≡◌, ◌≢◌, ◌↔◌, ◌⊎◌, inl, inr, ◌<◌, refl, sym, ap, ap₂, subst, ◌∙◌, arith, Bool-cases,
  Option-cases,
}
use aries.Sandbox.Checks.{
  is_digit, cut_colon, decimal, parse_uint32, user_ids, validate_exec_user, Command,
  validate_command, or_default, with_defaults, prepare_command,
}

-- The number that digits write, the first one weighing most.
abbrev pub numeral : Bytes → ℕ
numeral [] = 0
numeral (c ∷ s) = (c - 48) * 10 ^ length s + numeral s

abbrev pub all_digits : Bytes → Bool
all_digits [] = true
all_digits (c ∷ s) = is_digit c && all_digits s

-- The digits of a number that 32 bits hold.
abbrev pub Id32 : Bytes → Type 0
Id32 s = (s ≢ []) × (all_digits s ≡ true) × (numeral s < 2 ^ 32)

step_numeral : (n d p k : ℕ) → (n * 10 + d) * p + k ≡ n * (10 * p) + (d * p + k)
step_numeral n d p k = omega arith

decimal-numeral :
    (n : ℕ) (s : Bytes) → all_digits s ≡ true → decimal n s ≡ some (n * 10 ^ length s + numeral s)
unfolding decimal
decimal-numeral n [] h = ground arith
decimal-numeral n (c ∷ s) h = ground (
  arith,
  h,
  decimal-numeral (n * 10 + (c - 48)) s (ground (arith, h)),
  step_numeral n (c - 48) (10 ^ length s) (numeral s),
)

decimal_refuses : (n : ℕ) (s : Bytes) → all_digits s ≡ false → decimal n s ≡ none
unfolding decimal
decimal_refuses n [] h = cc
decimal_refuses n (c ∷ s) h = elim (Bool-cases (is_digit c)) [
  | inl digit ↦
      ground (arith, digit, decimal_refuses (n * 10 + (c - 48)) s (ground (arith, digit, h)))
  | inr other ↦ ground (arith, other)
]

parse_uint32_accepts : (s : Bytes) → Id32 s → parse_uint32 s ≡ some (numeral s)
unfolding parse_uint32
parse_uint32_accepts [] (nonempty, _, _) = absurd (nonempty refl)
parse_uint32_accepts (c ∷ s) (_, digits, below) =
    ground (arith, below, decimal-numeral 0 (c ∷ s) digits)

parse_uint32_sound : (s : Bytes) (n : ℕ) → parse_uint32 s ≡ some n → Id32 s
unfolding parse_uint32
parse_uint32_sound [] n h = cc
parse_uint32_sound (c ∷ s) n h = elim (Bool-cases (all_digits (c ∷ s))) [
  | inr other ↦ absurd (ground (arith, decimal_refuses 0 (c ∷ s) other, h))
  | inl digits ↦ ((λ e. cc), digits, ground (arith, decimal-numeral 0 (c ∷ s) digits, h))
]

pub cut_colon_sound : (s a b : Bytes) → cut_colon s ≡ some (a, b) → s ≡ a ++ 58 ∷ b
unfolding cut_colon
cut_colon_sound [] a b h = cc
cut_colon_sound (c ∷ s) a b h = elim (Bool-cases (c == 58)) [
  | inl colon ↦ ground (arith, colon, h)
  | inr other ↦ elim (Option-cases (cut_colon s)) [
    | inl no_colon ↦ absurd (ground (arith, other, no_colon, h))
    | inr ((a', b'), there) ↦ ground (arith, other, there, h, cut_colon_sound s a' b' there)
  ]
]

cut_colon-digits :
    (uid gid : Bytes) → all_digits uid ≡ true → cut_colon (uid ++ 58 ∷ gid) ≡ some (uid, gid)
unfolding cut_colon
cut_colon-digits [] gid h = refl
cut_colon-digits (c ∷ uid) gid h = ground (arith, h, cut_colon-digits uid gid (ground (arith, h)))

-- What stands before and after the colon of a user's text.
abbrev pub TwoIds : Bytes → Type 0
TwoIds value = (uid : Bytes) × (gid : Bytes) × (value ≡ uid ++ 58 ∷ gid) × Id32 uid × Id32 gid

user_ids_sound : (value : Bytes) (p : ℕ × ℕ) → user_ids value ≡ some p → TwoIds value
unfolding user_ids
user_ids_sound value p h = elim (Option-cases (cut_colon value)) [
  | inl no_colon ↦ absurd (ground (arith, no_colon, h))
  | inr ((uid, gid), there) ↦ elim (Option-cases (parse_uint32 uid)) [
    | inl bad ↦ absurd (ground (arith, there, bad, h))
    | inr (u, hu) ↦ elim (Option-cases (parse_uint32 gid)) [
      | inl bad ↦ absurd (ground (arith, there, hu, bad, h))
      | inr (g, hg) ↦ (
        uid,
        gid,
        cut_colon_sound value uid gid there,
        parse_uint32_sound uid u hu,
        parse_uint32_sound gid g hg,
      )
    ]
  ]
]

user_ids_accepts :
    (uid gid : Bytes)
    → Id32 uid
    → Id32 gid
    → user_ids (uid ++ 58 ∷ gid) ≡ some (numeral uid, numeral gid)
unfolding user_ids
user_ids_accepts uid gid hu hg =
    ground (
      arith,
      cut_colon-digits uid gid hu.1,
      parse_uint32_accepts uid hu,
      parse_uint32_accepts gid hg,
    )

accepted_user :
    (value : Bytes) (p : ℕ × ℕ) → user_ids value ≡ some p → validate_exec_user value ≡ none
unfolding validate_exec_user
accepted_user [] p h = refl
accepted_user (c ∷ s) p h = ground (arith, h)

-- An exec user is accepted exactly when it is empty, or is a user and a group in digits with one
-- colon between them, each a number below 2 ^ 32.
pub validate_exec_user_iff :
    (value : Bytes) → (validate_exec_user value ≡ none) ↔ ((value ≡ []) ⊎ TwoIds value)
validate_exec_user_iff value = (to value, from)
  where
    to : (value : Bytes) → validate_exec_user value ≡ none → (value ≡ []) ⊎ TwoIds value
    to [] h = inl refl
    to (c ∷ s) h = elim (Option-cases (user_ids (c ∷ s))) [
      | inl bad ↦ absurd (unfold validate_exec_user in ground (arith, bad, h))
      | inr (p, there) ↦ inr (user_ids_sound (c ∷ s) p there)
    ]

    from : (value ≡ []) ⊎ TwoIds value → validate_exec_user value ≡ none
    from (inl empty) =
        subst (λ v. validate_exec_user v ≡ none) (sym empty) (unfold validate_exec_user in refl)
    from (inr (uid, gid, eq, hu, hg)) =
        subst (λ v. validate_exec_user v ≡ none) (sym eq)
          (accepted_user (uid ++ 58 ∷ gid) (numeral uid, numeral gid)
            (user_ids_accepts uid gid hu hg))

or_default_again : (a d : Bytes) → or_default (or_default a d) d ≡ or_default a d
or_default_again [] [] = refl
or_default_again [] (c ∷ d) = refl
or_default_again (c ∷ a) d = refl

with_defaults_again :
    (workdir user : Bytes) (c : Command)
    → with_defaults workdir user (with_defaults workdir user c) ≡ with_defaults workdir user c
unfolding with_defaults
with_defaults_again workdir user c =
    ap₂ (λ d u. record c { dir = d; user = u }) (or_default_again c.dir workdir)
      (or_default_again c.user user)

prepare_command-cases :
    (c p : Command) (workdir user : Bytes)
    → prepare_command c workdir user ≡ ok p
    → (validate_command c ≡ none) × (validate_command p ≡ none) × (p ≡ with_defaults workdir user c)
unfolding prepare_command
prepare_command-cases c p workdir user h = elim (Option-cases (validate_command c)) [
  | inr (e, bad) ↦ absurd (ground (arith, bad, h))
  | inl fine ↦ elim (Option-cases (validate_command (with_defaults workdir user c))) [
    | inr (e, bad) ↦ absurd (ground (arith, fine, bad, h))
    | inl again ↦
        let eq : p ≡ with_defaults workdir user c = ground (arith, fine, again, h) in
        (fine, subst (λ q. validate_command q ≡ none) (sym eq) again, eq)
  ]
]

pub prepare_command_accepts :
    (c : Command) (workdir user : Bytes)
    → validate_command c ≡ none
    → validate_command (with_defaults workdir user c) ≡ none
    → prepare_command c workdir user ≡ ok (with_defaults workdir user c)
unfolding prepare_command
prepare_command_accepts c workdir user h k = ground (arith, h, k)

-- A prepared command passes the checks, differs from the given one in the directory and the user
-- only, where those were empty, and is left as it is when it is prepared again.
pub prepare_command_again :
    (c p : Command) (workdir user : Bytes)
    → prepare_command c workdir user ≡ ok p
    → (validate_command p ≡ none)
      × (p ≡ record c { dir = or_default c.dir workdir; user = or_default c.user user })
      × (prepare_command p workdir user ≡ ok p)
prepare_command_again c p workdir user h =
    let (_, valid, eq) = prepare_command-cases c p workdir user h in
    let same : with_defaults workdir user p ≡ p =
      ap (with_defaults workdir user) eq ∙ (with_defaults_again workdir user c ∙ sym eq) in
    (
      valid,
      eq ∙ (unfold with_defaults in refl),
      prepare_command_accepts p workdir user valid
            (subst (λ q. validate_command q ≡ none) (sym same) valid)
          ∙ ap ok same,
    )
