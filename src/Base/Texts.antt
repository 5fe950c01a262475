-- ===== src/Base/Texts.antt =====
-- Go strings as lists of bytes, with the functions of package strings that the code uses on them.
use Prim.Native.Nat.{ℕ}
use Prim.Native.Char.{code}
use Prim.Native.String.{String}
use mathlib.Core.Path.{◌≡◌, refl, ap₂}
use mathlib.Core.Logic.{◌↔◌}
use mathlib.Core.Bool.{Bool, true, false, ◌&&◌, ◌||◌}
use mathlib.Core.Option.{Option, none, some}
use mathlib.Core.List.{List, [], ◌∷◌, ◌++◌}
use native.Mathlib.Omega.{arith}
use aries.Base.Tests.{◌==◌, if◌then◌else◌}

abbrev pub Bytes : Type 0
Bytes = List ℕ

-- The bytes of an ASCII text.
abbrev pub codes : String → Bytes
codes String.[] = []
codes (String.◌∷◌ c s) = code c ∷ codes s

-- `a == b` on strings.
unfoldable pub bytes_eq : Bytes → Bytes → Bool
bytes_eq [] [] = true
bytes_eq [] (b ∷ bs) = false
bytes_eq (a ∷ as') [] = false
bytes_eq (a ∷ as') (b ∷ bs) = a == b && bytes_eq as' bs

-- `strings.CutPrefix(s, prefix)`: what is left of `s`, if it begins with the prefix.
unfoldable pub cut_prefix : Bytes → Bytes → Option Bytes
cut_prefix s [] = some s
cut_prefix [] (p ∷ ps) = none
cut_prefix (a ∷ s) (p ∷ ps) = if a == p then cut_prefix s ps else none

-- `strings.HasPrefix(s, prefix)`.
unfoldable pub has_prefix : Bytes → Bytes → Bool
unfolding cut_prefix
has_prefix s p = elim (cut_prefix s p) [ none ↦ false | some _ ↦ true ]

-- `strings.ContainsFunc`, for a test that holds of every byte beyond ASCII or of none.
unfoldable pub contains_func : (ℕ → Bool) → Bytes → Bool
contains_func p [] = false
contains_func p (c ∷ s) = p c || contains_func p s

-- `strings.ContainsAny(s, chars)` and `ContainsRune`, for ASCII characters: one of them is `c`.
unfoldable pub one_of : Bytes → ℕ → Bool
one_of [] c = false
one_of (d ∷ ds) c = c == d || one_of ds c

pub bytes_eq_iff : (a b : Bytes) → (bytes_eq a b ≡ true) ↔ (a ≡ b)
unfolding bytes_eq
bytes_eq_iff [] [] = ((λ _. refl), (λ _. refl))
bytes_eq_iff [] (b ∷ bs) = ((λ h. cc), (λ h. cc))
bytes_eq_iff (a ∷ as') [] = ((λ h. cc), (λ h. cc))
bytes_eq_iff (a ∷ as') (b ∷ bs) =
    let (to, from) = bytes_eq_iff as' bs in
    (
      (λ h. ap₂ (λ x xs. x ∷ xs) (ground arith) (to (ground arith))),
      (λ h. ground (arith, from (cc))),
    )

pub bytes_eq_self : (a : Bytes) → bytes_eq a a ≡ true
bytes_eq_self a = (bytes_eq_iff a a).1 refl

pub cut_prefix-append : (p s : Bytes) → cut_prefix (p ++ s) p ≡ some s
unfolding cut_prefix
cut_prefix-append [] s = unfold cut_prefix in cut_nil s
  where
    cut_nil : (t : Bytes) → cut_prefix t [] ≡ some t
    cut_nil [] = refl
    cut_nil (x ∷ t) = refl
cut_prefix-append (c ∷ p) s = ground (arith, cut_prefix-append p s)

pub cut_prefix_sound : (s p rest : Bytes) → cut_prefix s p ≡ some rest → s ≡ p ++ rest
unfolding cut_prefix
cut_prefix_sound [] [] rest h = ground arith
cut_prefix_sound (a ∷ s) [] rest h = ground arith
cut_prefix_sound [] (c ∷ p) rest h = cc
cut_prefix_sound (a ∷ s) (c ∷ p) rest h =
    ap₂ (λ x xs. x ∷ xs) (ground arith) (cut_prefix_sound s p rest (ground arith))

pub contains_func-append :
    (p : ℕ → Bool) (s t : Bytes)
    → contains_func p (s ++ t) ≡ (contains_func p s || contains_func p t)
unfolding contains_func
contains_func-append p [] t = refl
contains_func-append p (c ∷ s) t = ground (arith, contains_func-append p s t)
