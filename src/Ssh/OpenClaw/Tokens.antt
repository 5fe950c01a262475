-- ===== src/Ssh/OpenClaw/Tokens.antt =====
-- pkg/bridge/ssh/openclaw/grammar.go: `decodeCanonicalTokens` undoes `encodeCanonicalTokens`.
use aries.Base.{
  ℕ, zero, suc, List, [], ◌∷◌, ◌++◌, Option, none, some, ◌==◌, Bytes, has_prefix, cut_prefix,
  length, Result, ok, err, ◌≡◌, ◌≢◌, refl, ap, ◌∙◌, ◌⊎◌, inl, inr, arith, ◌≤◌, ◌<◌, append_assoc,
  length-append, Bool-cases, Option-cases,
}
use aries.Ssh.Quote.{quote, single_quote, replace_quotes, scan, scan-replace_quotes}
use aries.Ssh.OpenClaw.{
  Error, out_of_fuel, space, next_token, tokens_loop, check_tokens, decode_canonical_tokens,
  encode_canonical_tokens,
}

-- What the scanner leaves is no longer than what it was given.
scan-length :
    (skip : ℕ) (s value v rest : Bytes)
    → scan skip s value ≡ some (v, rest)
    → length rest ≤ length s
unfolding scan
scan-length skip [] value v rest h = absurd (ground (arith, h))
scan-length (suc skip) (c ∷ s) value v rest h = ground (arith, scan-length skip s value v rest h)
scan-length zero (c ∷ s) value v rest h = ground (
  arith,
  scan-length zero s (value ++ c ∷ []) v rest,
  scan-length 4 s (value ++ quote ∷ []) v rest,
  h,
)

next_token-length : (rest s : Bytes) → next_token rest ≡ ok (some s) → length s < length rest
unfolding next_token
next_token-length [] s h = absurd (ground (arith, h))
next_token-length (c ∷ []) s h = absurd (ground (arith, h))
next_token-length (c ∷ d ∷ rest) s h = ground (arith, h)

next_token-fuel : (rest : Bytes) → next_token rest ≢ err out_of_fuel
unfolding next_token
next_token-fuel [] h = ground (arith, h)
next_token-fuel (c ∷ []) h = ground (arith, h)
next_token-fuel (c ∷ d ∷ rest) h = ground (arith, h)

-- How one turn of the loop goes on.
next_token-cases :
    (r : Result Error (Option Bytes))
    → ((e : Error) × (r ≡ err e)) ⊎ ((r ≡ ok none) ⊎ ((s : Bytes) × (r ≡ ok (some s))))
next_token-cases (err e) = inl (e, refl)
next_token-cases (ok none) = inr (inl refl)
next_token-cases (ok (some s)) = inr (inr (s, refl))

-- The loop does not run out of fuel where there is as much as text.
loop_fuel :
    (fuel : ℕ) (s : Bytes) (tokens : List Bytes)
    → length s ≤ fuel
    → tokens_loop fuel s tokens ≢ err out_of_fuel
unfolding tokens_loop
loop_fuel fuel [] tokens enough h = ground (arith, h)
loop_fuel zero (c ∷ s) tokens enough h = ground (arith, enough)
loop_fuel (suc fuel) (c ∷ s) tokens enough h = elim (Bool-cases (c == quote)) [
  | inr plain ↦ ground (arith, plain, h)
  | inl quoted ↦ elim (Option-cases (scan zero s [])) [
    | inl endless ↦ ground (arith, quoted, endless, h)
    | inr ((value, rest), scanned) ↦ elim (next_token-cases (next_token rest)) [
      | inl (e, stopped) ↦ ground (arith, quoted, scanned, stopped, h, next_token-fuel rest)
      | inr (inl last) ↦ ground (arith, quoted, scanned, last, h)
      | inr (inr (s', more)) ↦
          let shorter = next_token-length rest s' more in
          let short = scan-length zero s [] value rest scanned in
          loop_fuel fuel s' (tokens ++ value ∷ []) (omega (arith, shorter, short, enough))
            (ground (arith, quoted, scanned, more, h))
    ]
  ]
]

scan_last : (t : Bytes) → scan zero (replace_quotes t ++ quote ∷ []) [] ≡ some (t, [])
scan_last t = scan-replace_quotes t [] [] (unfold has_prefix cut_prefix in refl)

scan_next :
    (t s : Bytes)
    → scan zero ((replace_quotes t ++ quote ∷ []) ++ space ∷ s) [] ≡ some (t, space ∷ s)
scan_next t s =
    rw append_assoc (scan-replace_quotes t [] (space ∷ s) (unfold has_prefix cut_prefix in refl))

-- An encoding begins with a quote.
pub encoded_head :
    (u : Bytes) (ts : List Bytes) → (s : Bytes) × (encode_canonical_tokens (u ∷ ts) ≡ quote ∷ s)
unfolding encode_canonical_tokens single_quote
encoded_head u [] = (_, refl)
encoded_head u (v ∷ ts) = (_, refl)

next_token-encoded :
    (u : Bytes) (ts : List Bytes)
    → next_token (space ∷ encode_canonical_tokens (u ∷ ts))
      ≡ ok (some (encode_canonical_tokens (u ∷ ts)))
unfolding next_token
next_token-encoded u ts = let (s, head) = encoded_head u ts in rw head refl

next_token-end : next_token [] ≡ ok none
unfolding next_token
next_token-end = refl

loop_step :
    (fuel : ℕ) (t s : Bytes) (tokens : List Bytes)
    → next_token (space ∷ s) ≡ ok (some s)
    → tokens_loop (suc fuel) (single_quote t ++ space ∷ s) tokens
      ≡ tokens_loop fuel s (tokens ++ t ∷ [])
unfolding tokens_loop single_quote
loop_step fuel t s tokens h = ground (arith, scan_next t s, h)

rest_fuel :
    (t s : Bytes) (fuel : ℕ) → length (single_quote t ++ space ∷ s) ≤ suc fuel → length s ≤ fuel
unfolding single_quote
rest_fuel t s fuel h = ground (arith, length-append (replace_quotes t ++ quote ∷ []) (space ∷ s), h)

-- The loop reads the encoding of tokens that are not none.
loop_encoded :
    (t : Bytes) (ts : List Bytes) (fuel : ℕ) (tokens : List Bytes)
    → length (encode_canonical_tokens (t ∷ ts)) ≤ fuel
    → tokens_loop fuel (encode_canonical_tokens (t ∷ ts)) tokens ≡ ok (tokens ++ t ∷ ts)
unfolding encode_canonical_tokens tokens_loop single_quote
loop_encoded t [] zero tokens enough = absurd (ground (arith, enough))
loop_encoded t [] (suc fuel) tokens enough = ground (arith, scan_last t, next_token-end)
loop_encoded t (u ∷ ts) zero tokens enough = absurd (ground (arith, enough))
loop_encoded t (u ∷ ts) (suc fuel) tokens enough =
    let rest = encode_canonical_tokens (u ∷ ts) in
    loop_step fuel t rest tokens (next_token-encoded u ts)
    ∙ loop_encoded u ts fuel (tokens ++ t ∷ []) (rest_fuel t rest fuel enough)
    ∙ ap ok (append_assoc tokens (t ∷ []) (u ∷ ts))

-- Any list of tokens but the empty one is read back from its encoding, whatever bytes they hold.
pub decode-encode_canonical_tokens :
    (t : Bytes) (ts : List Bytes)
    → decode_canonical_tokens (encode_canonical_tokens (t ∷ ts)) ≡ ok (t ∷ ts)
unfolding decode_canonical_tokens
decode-encode_canonical_tokens t ts =
    ap check_tokens
      (loop_encoded t ts (length (encode_canonical_tokens (t ∷ ts))) [] (ground arith))

-- The loop over the tokens of a text never runs out of the fuel it is given, the length of the text:
-- decoding ends with tokens or with a refusal of the source.
pub decode_canonical_tokens-fuel : (s : Bytes) → decode_canonical_tokens s ≢ err out_of_fuel
unfolding decode_canonical_tokens
decode_canonical_tokens-fuel s h =
    loop_fuel (length s) s [] (ground arith) (checked (tokens_loop (length s) s []) h)
  where
    checked :
        (r : Result Error (List Bytes)) → check_tokens r ≡ err out_of_fuel → r ≡ err out_of_fuel
    checked (err e) h = h
    checked (ok []) h = absurd (ground (arith, h))
    checked (ok (t ∷ ts)) h = absurd (ground (arith, h))
