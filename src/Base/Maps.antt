-- ===== src/Base/Maps.antt =====
-- Go maps as association lists. An insertion overwrites the value of a key in place, or adds the key
-- at the end; no key stands twice.
use mathlib.Core.Path.{◌≡◌}
use mathlib.Core.Bool.{false}
use mathlib.Core.Option.{Option, none, some}
use mathlib.Core.List.{List, [], ◌∷◌, map}
use native.Mathlib.Omega.{arith}
use aries.Base.Tests.{if◌then◌else◌}
use aries.Base.Texts.{Bytes, bytes_eq, bytes_eq_iff, bytes_eq_self}

module _ {V : Type 0} where
  unfoldable pub lookup : Bytes → List (Bytes × V) → Option V
  lookup k [] = none
  lookup k ((k', v) ∷ m) = if bytes_eq k k' then some v else lookup k m

  unfoldable pub insert : Bytes → V → List (Bytes × V) → List (Bytes × V)
  insert k v [] = (k, v) ∷ []
  insert k v ((k', v') ∷ m) =
      let rest = insert k v m in if bytes_eq k k' then (k', v) ∷ m else (k', v') ∷ rest

  abbrev pub keys : List (Bytes × V) → List Bytes
  keys m = map (λ p. p.0) m

  pub lookup-insert : (k : Bytes) (v : V) (m : List (Bytes × V)) → lookup k (insert k v m) ≡ some v
  unfolding lookup insert
  lookup-insert k v [] = ground (arith, bytes_eq_self k)
  lookup-insert k v ((k', v') ∷ m) = ground (arith, lookup-insert k v m)

  pub lookup-insert_other :
      (j k : Bytes) (v : V) (m : List (Bytes × V))
      → bytes_eq j k ≡ false
      → lookup j (insert k v m) ≡ lookup j m
  unfolding lookup insert
  lookup-insert_other j k v [] h = ground (arith, h)
  lookup-insert_other j k v ((k', v') ∷ m) h =
      ground (arith, lookup-insert_other j k v m h, bytes_eq_iff k k', h)
