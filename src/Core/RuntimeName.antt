-- ===== src/Core/RuntimeName.antt =====
-- pkg/core/runtime_name.go: the name of a runtime, which is a DNS label.
use aries.Base.{
  ℕ, suc, ◌+◌, Bool, true, false, ◌&&◌, ◌||◌, not, List, [], ◌∷◌, ◌++◌, between, ◌==◌, leb,
  if◌then◌else◌, Bytes, codes, length, length-append, contains_func, contains_func-append, ◌≡◌, ◌⊎◌,
  inl, inr, ◌≤◌, refl, sym, subst, ◌∙◌, arith, Bool-cases,
}

abbrev pub runtime_task_limit : ℕ
runtime_task_limit = 24

-- `strings.ToLower` on one rune, as far as its result is ASCII: beside A to Z, the dotted capital I
-- and the Kelvin sign have an ASCII lower case.
unfoldable pub to_lower : ℕ → ℕ
to_lower r =
    if between 65 90 r then r + 32 else if r == 304 then 105 else if r == 8490 then 107 else r

abbrev pub is_lower_alnum : ℕ → Bool
is_lower_alnum c = between 97 122 c || between 48 57 c

-- `strings.HasSuffix(s, "-")`.
unfoldable pub ends_in_hyphen : Bytes → Bool
ends_in_hyphen [] = false
ends_in_hyphen (c ∷ []) = c == 45
ends_in_hyphen (c ∷ d ∷ s) = ends_in_hyphen (d ∷ s)

-- `strings.TrimSuffix(s, "-")`.
unfoldable pub trim_hyphen : Bytes → Bytes
trim_hyphen [] = []
trim_hyphen (c ∷ []) = if c == 45 then [] else c ∷ []
trim_hyphen (c ∷ d ∷ s) = c ∷ trim_hyphen (d ∷ s)

-- One rune of the lowered task id after what is written.
unfoldable pub write_rune : Bytes → ℕ → Bytes
write_rune task r =
    if is_lower_alnum r
    then task ++ r ∷ []
    else if leb 1 (length task) && not (ends_in_hyphen task)
    then task ++ 45 ∷ []
    else task

-- The loop over the runes, which ends early at the limit.
unfoldable pub task_hint : Bytes → List ℕ → Bytes
task_hint task [] = task
task_hint task (r ∷ rs) =
    let written = write_rune task (to_lower r) in
    let rest = task_hint written rs in
    if length written == runtime_task_limit then written else rest

-- The name with a task part, which may be empty.
unfoldable pub with_hint : Bytes → Bytes → Bytes → Bytes
with_hint role [] nonce = codes "aries-" ++ (role ++ (codes "-" ++ nonce))
with_hint role (c ∷ hint) nonce =
    codes "aries-" ++ (role ++ (codes "-" ++ ((c ∷ hint) ++ (codes "-" ++ nonce))))

unfoldable pub runtime_name : Bytes → List ℕ → Bytes → Bytes
runtime_name role task_id nonce = with_hint role (trim_hyphen (task_hint [] task_id)) nonce

-- Letters in lower case, digits and hyphens.
abbrev pub is_name_char : ℕ → Bool
is_name_char c = is_lower_alnum c || c == 45

abbrev pub is_name : Bytes → Bool
is_name s = not (contains_func (λ c. not (is_name_char c)) s)

is_name-append : (s t : Bytes) → is_name (s ++ t) ≡ (is_name s && is_name t)
is_name-append s t = ground (arith, contains_func-append (λ c. not (is_name_char c)) s t)

-- A task part that is a label within the limit.
abbrev Fits : Bytes → Type 0
Fits s = (is_name s ≡ true) × (length s ≤ runtime_task_limit)

write_rune-cases :
    (task : Bytes) (r : ℕ)
    → (write_rune task r ≡ task)
      ⊎ ((c : ℕ) × (write_rune task r ≡ task ++ c ∷ []) × (is_name_char c ≡ true))
unfolding write_rune
write_rune-cases task r = elim (Bool-cases (is_lower_alnum r)) [
  | inl alnum ↦ inr (r, ground (arith, alnum), ground (arith, alnum))
  | inr other ↦ elim (Bool-cases (leb 1 (length task) && not (ends_in_hyphen task))) [
    | inl separates ↦ inr (45, ground (arith, other, separates), refl)
    | inr nothing ↦ inl (ground (arith, other, nothing))
  ]
]

write_rune-Fits :
    (task : Bytes) (r : ℕ)
    → Fits task
    → suc (length task) ≤ runtime_task_limit
    → Fits (write_rune task r)
write_rune-Fits task r (label, within) below = elim (write_rune-cases task r) [
  | inl same ↦ subst Fits (sym same) (label, within)
  | inr (c, eq, char) ↦ subst Fits (sym eq) (
    unfold contains_func in ground (arith, label, char, is_name-append task (c ∷ [])),
    ground (arith, below, length-append task (c ∷ [])),
  )
]

task_hint-Fits :
    (task : Bytes) (rs : List ℕ)
    → Fits task
    → suc (length task) ≤ runtime_task_limit
    → Fits (task_hint task rs)
unfolding task_hint
task_hint-Fits task [] h below = h
task_hint-Fits task (r ∷ rs) h below =
    elim (Bool-cases (length (write_rune task (to_lower r)) == runtime_task_limit)) [
      | inl full ↦ subst Fits (ground (arith, full)) written
      | inr room ↦ subst Fits (ground (arith, room)) (
          task_hint-Fits (write_rune task (to_lower r)) rs written
            (ground (arith, room, written.1)))
    ]
  where
    written : Fits (write_rune task (to_lower r))
    written = write_rune-Fits task (to_lower r) h below

trim_hyphen-is_name : (s : Bytes) → is_name s ≡ true → is_name (trim_hyphen s) ≡ true
unfolding trim_hyphen contains_func
trim_hyphen-is_name [] h = refl
trim_hyphen-is_name (c ∷ []) h = ground (arith, h)
trim_hyphen-is_name (c ∷ d ∷ s) h = ground (arith, h, trim_hyphen-is_name (d ∷ s))

length-trim_hyphen : (s : Bytes) → length (trim_hyphen s) ≤ length s
unfolding trim_hyphen
length-trim_hyphen [] = ground arith
length-trim_hyphen (c ∷ []) = ground arith
length-trim_hyphen (c ∷ d ∷ s) = ground (arith, length-trim_hyphen (d ∷ s))

hint-Fits : (task_id : List ℕ) → Fits (trim_hyphen (task_hint [] task_id))
hint-Fits task_id =
    let (label, within) =
      task_hint-Fits [] task_id (unfold contains_func in (refl, ground arith)) (ground arith) in
    (
      trim_hyphen-is_name (task_hint [] task_id) label,
      ground (arith, within, length-trim_hyphen (task_hint [] task_id)),
    )

with_hint-is_name :
    (role hint nonce : Bytes)
    → is_name role ≡ true
    → is_name hint ≡ true
    → is_name nonce ≡ true
    → is_name (with_hint role hint nonce) ≡ true
unfolding with_hint contains_func
with_hint-is_name role [] nonce r h n =
    ground (arith, r, n, is_name-append role (codes "-" ++ nonce))
with_hint-is_name role (c ∷ hint) nonce r h n = ground (
  arith,
  r,
  h,
  n,
  is_name-append role (codes "-" ++ ((c ∷ hint) ++ (codes "-" ++ nonce))),
  is_name-append hint (codes "-" ++ nonce),
)

length-with_hint :
    (role hint nonce : Bytes)
    → length (with_hint role hint nonce) ≤ 8 + (length role + length hint + length nonce)
unfolding with_hint
length-with_hint role [] nonce = ground (arith, length-append role (codes "-" ++ nonce))
length-with_hint role (c ∷ hint) nonce = ground (
  arith,
  length-append role (codes "-" ++ ((c ∷ hint) ++ (codes "-" ++ nonce))),
  length-append hint (codes "-" ++ nonce),
)

pub runtime_name-is_name :
    (role : Bytes) (task_id : List ℕ) (nonce : Bytes)
    → is_name role ≡ true
    → is_name nonce ≡ true
    → (is_name (runtime_name role task_id nonce) ≡ true)
      × (length (runtime_name role task_id nonce) ≤ 32 + (length role + length nonce))
unfolding runtime_name
runtime_name-is_name role task_id nonce r n =
    let (name, within) = hint-Fits task_id in
    let hint = trim_hyphen (task_hint [] task_id) in
    (
      with_hint-is_name role hint nonce r name n,
      ground (arith, within, length-with_hint role hint nonce),
    )

-- A DNS label: 1 to 63 lower-case letters, digits and hyphens, with no hyphen at either end.
abbrev pub starts_in_hyphen : Bytes → Bool
starts_in_hyphen [] = false
starts_in_hyphen (c ∷ s) = c == 45

abbrev pub IsLabel : Bytes → Type 0
IsLabel s =
    (is_name s ≡ true)
    × (starts_in_hyphen s ≡ false)
    × (ends_in_hyphen s ≡ false)
    × (1 ≤ length s)
    × (length s ≤ 63)

ends_in_hyphen-append : (s t : Bytes) → ends_in_hyphen (s ++ 45 ∷ t) ≡ ends_in_hyphen (45 ∷ t)
unfolding ends_in_hyphen
ends_in_hyphen-append [] t = refl
ends_in_hyphen-append (c ∷ []) t = refl
ends_in_hyphen-append (c ∷ d ∷ s) t = ends_in_hyphen-append (d ∷ s) t

-- The name ends as its nonce does.
with_hint-ends :
    (role hint nonce : Bytes)
    → ends_in_hyphen (with_hint role hint nonce) ≡ ends_in_hyphen (45 ∷ nonce)
unfolding with_hint
with_hint-ends role [] nonce =
    ends_in_hyphen-append (codes "aries") (role ++ (codes "-" ++ nonce))
    ∙ ends_in_hyphen-append (codes "-" ++ role) nonce
with_hint-ends role (c ∷ hint) nonce =
    ends_in_hyphen-append (codes "aries")
      (role ++ (codes "-" ++ ((c ∷ hint) ++ (codes "-" ++ nonce))))
    ∙ (ends_in_hyphen-append (codes "-" ++ role) ((c ∷ hint) ++ (codes "-" ++ nonce))
        ∙ ends_in_hyphen-append (45 ∷ c ∷ hint) nonce)

with_hint-starts :
    (role hint nonce : Bytes)
    → (starts_in_hyphen (with_hint role hint nonce) ≡ false)
      × (1 ≤ length (with_hint role hint nonce))
unfolding with_hint
with_hint-starts role [] nonce = (refl, ground arith)
with_hint-starts role (c ∷ hint) nonce = (refl, ground arith)

-- Whatever the task id, the name of a runtime is a DNS label, if the role and the nonce are of
-- lower-case letters, digits and hyphens and together not longer than 31 bytes, and the nonce is not
-- empty and does not end in a hyphen.
pub runtime_name-IsLabel :
    (role : Bytes) (task_id : List ℕ) (nonce : Bytes)
    → is_name role ≡ true
    → is_name nonce ≡ true
    → ends_in_hyphen (45 ∷ nonce) ≡ false
    → length role + length nonce ≤ 31
    → IsLabel (runtime_name role task_id nonce)
runtime_name-IsLabel role task_id nonce r n ends short =
    let (named, within) = runtime_name-is_name role task_id nonce r n in
    let hint = trim_hyphen (task_hint [] task_id) in
    let (starts_well, some_byte) = with_hint-starts role hint nonce in
    let ends_well = with_hint-ends role hint nonce in
    unfold runtime_name in
    (
      named,
      starts_well,
      ends_well ∙ ends,
      some_byte,
      unfold runtime_name in ground (arith, within, short),
    )
