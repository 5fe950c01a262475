-- ===== src/Image.antt =====
-- pkg/containerimage/image.go, and `validatePullImage` of pkg/sandbox/sandbox.go: which references to
-- images are accepted. The parser of references is a library's; `Reference` is what it says of one.
use aries.Base.{
  ℕ, Bool, false, ◌&&◌, ◌||◌, not, List, [], ◌∷◌, Option, none, some, ◌==◌, between, if◌then◌else◌,
  Bytes, codes, bytes_eq, length, reverse, Result, ok, err,
}
use aries.Core.Errors.{GoError, message, wrapped}

pub record Digest : Type 0 where
  pub algorithm : Bytes
  pub encoded : Bytes
  pub invalid : Option GoError

-- `canonical` is the digest of a `reference.Canonical`, and `tag` the tag of a `reference.Tagged`.
pub record Reference : Type 0 where
  pub canonical : Option Digest
  pub tag : Option Bytes

abbrev pub ImageParser : Type 0
ImageParser = Bytes → Result GoError Reference

-- `parse`: a reference with a full sha256 digest.
unfoldable pub check_digest : Digest → Option GoError
check_digest pin =
    if not (bytes_eq pin.algorithm (codes "sha256") && length pin.encoded == 64)
    then some (message "image must use a full sha256 digest")
    else elim pin.invalid [ some e ↦ some (wrapped "invalid image digest" e) | none ↦ none ]

unfoldable pub validate_digest : ImageParser → Bytes → Option GoError
validate_digest parse value = elim (parse value) [
  | err e ↦ some (wrapped "invalid image reference" e)
  | ok named ↦ elim named.canonical [
    | none ↦ some (message "image must be pinned by digest")
    | some pin ↦ check_digest pin
  ]
]

-- `strings.TrimSpace` on UTF-8. `first_space` is what follows a white-space rune at the beginning, and
-- `last_space` the same for the bytes in reverse.
abbrev pub ascii_space : ℕ → Bool
ascii_space c = between 9 13 c || c == 32

-- The third byte of those spaces that begin with E2 80.
abbrev pub general_space : ℕ → Bool
general_space c = between 128 138 c || (c == 168 || (c == 169 || c == 175))

abbrev pub is_space_3 : ℕ → ℕ → ℕ → Bool
is_space_3 a b c =
    (a == 225 && (b == 154 && c == 128))
    || ((a == 226 && (b == 128 && general_space c))
        || ((a == 226 && (b == 129 && c == 159)) || (a == 227 && (b == 128 && c == 128))))

abbrev pub is_space_2 : ℕ → ℕ → Bool
is_space_2 a b = a == 194 && (b == 133 || b == 160)

unfoldable pub first_space : Bytes → Option Bytes
first_space [] = none
first_space (a ∷ []) = if ascii_space a then some [] else none
first_space (a ∷ b ∷ []) =
    if ascii_space a then some (b ∷ []) else if is_space_2 a b then some [] else none
first_space (a ∷ b ∷ c ∷ s) =
    if ascii_space a
    then some (b ∷ c ∷ s)
    else if is_space_2 a b
    then some (c ∷ s)
    else if is_space_3 a b c
    then some s
    else none

unfoldable pub last_space : Bytes → Option Bytes
last_space [] = none
last_space (a ∷ []) = if ascii_space a then some [] else none
last_space (a ∷ b ∷ []) =
    if ascii_space a then some (b ∷ []) else if is_space_2 b a then some [] else none
last_space (a ∷ b ∷ c ∷ s) =
    if ascii_space a
    then some (b ∷ c ∷ s)
    else if is_space_2 b a
    then some (c ∷ s)
    else if is_space_3 c b a
    then some s
    else none

-- As often as `cut` finds one, on fuel: the length of the text is enough.
unfoldable pub trim_by : (Bytes → Option Bytes) → List ℕ → Bytes → Bytes
trim_by cut [] s = s
trim_by cut (_ ∷ fuel) s = elim (cut s) [ none ↦ s | some rest ↦ trim_by cut fuel rest ]

unfoldable pub trim_space : Bytes → Bytes
trim_space s =
    let front = trim_by first_space s s in
    let back = reverse front in reverse (trim_by last_space back back)

unfoldable pub check_tagged : Bytes → Reference → Result GoError Bytes
check_tagged trimmed named = elim named.canonical [
  | some _ ↦ err (message "image must be pinned by tag only, not digest")
  | none ↦ elim named.tag [
    | none ↦ err (message "image must include an explicit tag")
    | some _ ↦ ok trimmed
  ]
]

unfoldable pub validate_tag_only : ImageParser → Bytes → Result GoError Bytes
validate_tag_only parse value =
    let trimmed = trim_space value in
    if bytes_eq trimmed [] then err (message "image is required") else elim (parse trimmed) [
      | err e ↦ err (wrapped "invalid image reference" e)
      | ok named ↦ check_tagged trimmed named
    ]

abbrev pub is_latest : Option Bytes → Bool
is_latest none = false
is_latest (some tag) = bytes_eq tag (codes "latest")

unfoldable pub validate_pinned_tag_only : ImageParser → Bytes → Option GoError
validate_pinned_tag_only parse value = elim (validate_tag_only parse value) [
  | err e ↦ some e
  | ok validated ↦
      if not (bytes_eq validated value)
      then some (message "image must not contain surrounding whitespace")
      else elim (parse value) [
        | err e ↦ some (wrapped "invalid image reference" e)
        | ok named ↦
            if is_latest named.tag then some (message "image tag must not be latest") else none
      ]
]

-- A digest pins an image, and a tag does if nothing surrounds it.
unfoldable pub validate_pull_image : ImageParser → Bytes → Option GoError
validate_pull_image parse image = elim (validate_digest parse image) [
  | none ↦ none
  | some _ ↦ elim (validate_tag_only parse image) [
    | err e ↦ some e
    | ok tagged ↦
        if bytes_eq tagged image
        then none
        else some (message "image must not contain surrounding whitespace")
  ]
]
