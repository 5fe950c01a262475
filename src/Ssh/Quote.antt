-- ===== src/Ssh/Quote.antt =====
-- Single-quoted shell tokens: the quoting and the scanner that pkg/bridge/ssh/hermes/grammar.go
-- (`shlexQuote`, `decodeShellToken`) and pkg/bridge/ssh/openclaw/grammar.go
-- (`encodeCanonicalTokens`, `decodeCanonicalTokens`) both write out.
use aries.Base.{
  ℕ, zero, suc, ◌≡◌, refl, inl, inr, true, false, [], ◌∷◌, ◌++◌, append_assoc, append-nil, Option,
  none, some, arith, ◌==◌, if◌then◌else◌, Bytes, has_prefix, Bool-cases, ==_iff,
}

abbrev pub quote : ℕ
quote = b'\''

-- `"'"'`, which with the quote before it stands for one quote.
abbrev pub escape_tail : Bytes
escape_tail = b'"' ∷ b'\'' ∷ b'"' ∷ b'\'' ∷ []

abbrev pub escape : Bytes
escape = quote ∷ escape_tail

-- `strings.ReplaceAll(value, "'", escape)`.
unfoldable pub replace_quotes : Bytes → Bytes
replace_quotes [] = []
replace_quotes (c ∷ s) = (if c == quote then escape else c ∷ []) ++ replace_quotes s

-- "'" + strings.ReplaceAll(value, ...) + "'"
unfoldable pub single_quote : Bytes → Bytes
single_quote value = quote ∷ (replace_quotes value ++ quote ∷ [])

-- The loop behind an opening quote. `skip` counts the bytes of an escape that are still to pass,
-- `value` is what was read, and the result has the rest behind the closing quote; `none` is the end
-- of the text inside the quotes.
unfoldable pub scan : ℕ → Bytes → Bytes → Option (Bytes × Bytes)
scan skip [] value = none
scan (suc skip) (c ∷ s) value = scan skip s value
scan zero (c ∷ s) value = elim (c == quote) [
  | false ↦ scan zero s (value ++ c ∷ [])
  | true ↦ elim (has_prefix s escape_tail) [
    | true ↦ scan 4 s (value ++ quote ∷ [])
    | false ↦ some (value, s)
  ]
]

-- What follows a token does not continue an escape.
abbrev pub EndsToken : Bytes → Type 0
EndsToken rest = has_prefix rest escape_tail ≡ false

scan-escape : (s value : Bytes) → scan zero (escape ++ s) value ≡ scan zero s (value ++ quote ∷ [])
unfolding scan has_prefix
scan-escape s value = refl

scan_plain :
    (c : ℕ) (s value : Bytes)
    → (c == quote) ≡ false
    → scan zero (c ∷ s) value ≡ scan zero s (value ++ c ∷ [])
unfolding scan
scan_plain c s value plain = ground (arith, plain)

scan_close :
    (rest value : Bytes) → EndsToken rest → scan zero (quote ∷ rest) value ≡ some (value, rest)
unfolding scan
scan_close rest value ends = ground (arith, ends)

-- The scanner reads back what was quoted, and stops right behind it.
pub scan-replace_quotes :
    (s value rest : Bytes)
    → EndsToken rest
    → scan zero (replace_quotes s ++ quote ∷ rest) value ≡ some (value ++ s, rest)
unfolding replace_quotes
scan-replace_quotes [] value rest ends = rw append-nil (scan_close rest value ends)
scan-replace_quotes (c ∷ s) value rest ends = elim (Bool-cases (c == quote)) [
  | inl is_quote ↦
      let same : c ≡ quote = (==_iff c quote).0 is_quote in
      rw (is_quote, same)
        (rw scan-escape (rw (scan-replace_quotes s (value ++ quote ∷ []) rest ends, append_assoc)))
  | inr plain ↦ rw plain (
      rw (
        scan_plain c _ value plain,
        scan-replace_quotes s (value ++ c ∷ []) rest ends,
        append_assoc,
      ))
]
