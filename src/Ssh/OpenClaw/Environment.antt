-- ===== src/Ssh/OpenClaw/Environment.antt =====
-- pkg/bridge/ssh/openclaw/grammar.go: the environment that may stand before the shell.
use aries.Base.{
  Bool, true, false, ◌&&◌, not, List, [], ◌∷◌, ◌++◌, some, ◌==◌, Bytes, codes, bytes_eq,
  contains_func, ok, All, ◌≡◌, ◌≢◌, refl, sym, ap, ap₂, ◌⊎◌, inl, inr, ◌↔◌, arith, Bool-cases,
  Option-cases, bytes_eq_iff,
}
use aries.Ssh.OpenClaw.{
  remote_shell, open_claw_shell, bad_name_byte, valid_environment_name, split_assignment, is_seen,
  check_name, check_split,
}

-- A name and its value, and how they are spelled.
abbrev pub spell : Bytes × Bytes → Bytes
spell p = p.0 ++ b'=' ∷ p.1

abbrev pub IsValidName : Bytes × Bytes → Type 0
IsValidName p = valid_environment_name p.0 ≡ true

-- No name stands twice.
abbrev pub Distinct : List (Bytes × Bytes) → Type 0
Distinct [] = true ≡ true
Distinct (p ∷ ps) = All (λ q. q.0 ≢ p.0) ps × Distinct ps

-- OPENCLAW_SHELL is `exec` and the last name, if it is there.
abbrev pub ShellLast : List (Bytes × Bytes) → Type 0
ShellLast [] = true ≡ true
ShellLast (p ∷ ps) = ((p.0 ≢ open_claw_shell) ⊎ ((p.1 ≡ codes "exec") × (ps ≡ []))) × ShellLast ps

abbrev pub Environment : List (Bytes × Bytes) → Type 0
Environment ps = All IsValidName ps × Distinct ps × ShellLast ps

split_sound : (t n v : Bytes) → split_assignment t ≡ some (n, v) → t ≡ spell (n, v)
unfolding split_assignment
split_sound [] n v h = absurd (ground (arith, h))
split_sound (c ∷ s) n v h = elim (Bool-cases (c == b'=')) [
  | inl equal ↦
      let none_before : [] ≡ n = ground (arith, equal, h) in
      let behind : s ≡ v = ground (arith, equal, h) in
      let same : c ≡ b'=' = ground (arith, equal) in
      rw (sym none_before) (ap₂ (λ x xs. x ∷ xs) same behind)
  | inr other ↦ elim (Option-cases (split_assignment s)) [
    | inl absent ↦ absurd (ground (arith, other, absent, h))
    | inr ((m, w), found) ↦
        let before : c ∷ m ≡ n = ground (arith, other, found, h) in
        let behind : w ≡ v = ground (arith, other, found, h) in
        rw (sym before, sym behind) (ap (λ xs. c ∷ xs) (split_sound s m w found))
  ]
]

name_no_separator :
    (s v : Bytes)
    → contains_func bad_name_byte s ≡ false
    → split_assignment (s ++ b'=' ∷ v) ≡ some (s, v)
unfolding split_assignment contains_func bad_name_byte
name_no_separator [] v h = refl
name_no_separator (c ∷ s) v h = ground (arith, name_no_separator s v, h)

pub split_complete :
    (n v : Bytes) → valid_environment_name n ≡ true → split_assignment (spell (n, v)) ≡ some (n, v)
unfolding split_assignment valid_environment_name
split_complete [] v h = absurd (ground (arith, h))
split_complete (c ∷ s) v h = ground (arith, name_no_separator s v, h)

pub spelled-ne-shell :
    (n v : Bytes) → valid_environment_name n ≡ true → bytes_eq (spell (n, v)) remote_shell ≡ false
unfolding valid_environment_name bytes_eq
spelled-ne-shell [] v h = absurd (ground (arith, h))
spelled-ne-shell (c ∷ s) v h = ground (arith, h)

pub is_seen_iff :
    (q n : Bytes) (seen : List Bytes)
    → (is_seen q (n ∷ seen) ≡ false) ↔ ((q ≢ n) × (is_seen q seen ≡ false))
unfolding is_seen
is_seen_iff q n seen = (
  (λ h. ((λ e. ground (arith, h, (bytes_eq_iff q n).1 e)), ground (arith, h))),
  (λ (fresh, h). elim (Bool-cases (bytes_eq q n)) [
    | inl equal ↦ absurd (fresh ((bytes_eq_iff q n).0 equal))
    | inr other ↦ ground (arith, other, h)
  ]),
)

-- What is tested of one assignment.
abbrev pub Passes : List Bytes → Bool → Bytes → Bytes → Type 0
Passes seen saw n v =
    (valid_environment_name n ≡ true)
    × (saw ≡ false)
    × (is_seen n seen ≡ false)
    × ((bytes_eq n open_claw_shell && not (bytes_eq v (codes "exec"))) ≡ false)

check_name_sound :
    (seen : List Bytes) (saw : Bool) (n v m : Bytes)
    → check_name seen saw n v ≡ ok m
    → (m ≡ n) × Passes seen saw n v
unfolding check_name
check_name_sound seen saw n v m h = (
  ground (arith, h),
  (ground (arith, h), ground (arith, h), ground (arith, h), ground (arith, h)),
)

pub check_split_complete :
    (seen : List Bytes) (saw : Bool) (n v : Bytes)
    → Passes seen saw n v
    → check_split seen saw (some (n, v)) ≡ ok n
unfolding check_name valid_environment_name
check_split_complete seen saw [] v h = absurd (ground (arith, h))
check_split_complete seen saw (c ∷ n) v h = ground (arith, h)

pub check_split_sound :
    (seen : List Bytes) (saw : Bool) (t m : Bytes)
    → check_split seen saw (split_assignment t) ≡ ok m
    → (v : Bytes) × (t ≡ spell (m, v)) × Passes seen saw m v
check_split_sound seen saw t m h = elim (Option-cases (split_assignment t)) [
  | inl absent ↦ absurd (ground (arith, absent, h))
  | inr (([], v), found) ↦ absurd (ground (arith, found, h))
  | inr ((c ∷ n, v), found) ↦
      let (same, passes) = check_name_sound seen saw (c ∷ n) v m (ground (arith, found, h)) in
      (v, split_sound t m v (rw same found), rw same passes)
]
