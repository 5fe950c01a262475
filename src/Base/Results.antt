-- ===== src/Base/Results.antt =====
-- A result or a refusal: Go's `(value, error)` where one of the two is the zero value.
pub data Result (E A : Type 0) : Type 0 where
  ok : A → Result E A
  err : E → Result E A
