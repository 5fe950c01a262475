-- ===== src/Ssh/Hermes/Token.antt =====
-- pkg/bridge/ssh/hermes/grammar.go: `decodeShellToken` undoes `shlexQuote`, and nothing else.
use aries.Base.{
  ok, ℕ, zero, ◌≡◌, refl, sym, ap, ◌∙◌, ◌↔◌, inl, inr, true, false, [], ◌∷◌, ◌++◌, Option, none,
  some, arith, ◌==◌, Bytes, bytes_eq, contains_func, one_of, has_prefix, bytes_eq_iff,
  bytes_eq_self, Bool-cases,
}
use aries.Ssh.Quote.{quote, single_quote, replace_quotes, scan, scan-replace_quotes}
use aries.Ssh.Hermes.{
  shlex_unsafe, shlex_quote, separators, check_canonical, check_quoted, decode_shell_token,
}

-- A byte that separates shell words is unsafe.
separators_unsafe : (c : ℕ) → one_of separators c ≡ true → shlex_unsafe c ≡ true
unfolding one_of shlex_unsafe
separators_unsafe c h = ground arith

contains_separator :
    (s : Bytes) → contains_func shlex_unsafe s ≡ false → contains_func (one_of separators) s ≡ false
unfolding contains_func
contains_separator [] h = refl
contains_separator (c ∷ s) h = ground (arith, separators_unsafe c, contains_separator s)

shlex_quote-safe :
    (c : ℕ) (s : Bytes) → contains_func shlex_unsafe (c ∷ s) ≡ false → shlex_quote (c ∷ s) ≡ c ∷ s
unfolding shlex_quote
shlex_quote-safe c s h = rw h

shlex_quote-unsafe :
    (c : ℕ) (s : Bytes)
    → contains_func shlex_unsafe (c ∷ s) ≡ true
    → shlex_quote (c ∷ s) ≡ single_quote (c ∷ s)
unfolding shlex_quote
shlex_quote-unsafe c s h = rw h

check_canonical-quote : (s : Bytes) → check_canonical (shlex_quote s) s ≡ ok s
unfolding check_canonical
check_canonical-quote s = rw (bytes_eq_self (shlex_quote s))

scan_quoted : (s : Bytes) → scan zero (replace_quotes s ++ quote ∷ []) [] ≡ some (s, [])
scan_quoted s = scan-replace_quotes s [] [] (unfold has_prefix in refl)

decode-single_quote :
    (s : Bytes) → shlex_quote s ≡ single_quote s → decode_shell_token (single_quote s) ≡ ok s
unfolding decode_shell_token single_quote
decode-single_quote s h =
    ap (check_quoted (single_quote s)) (scan_quoted s)
    ∙ ap (λ e. check_canonical e s) (sym h)
    ∙ check_canonical-quote s

bare : (c : ℕ) (s : Bytes) → contains_func shlex_unsafe (c ∷ s) ≡ false → (c == quote) ≡ false
unfolding contains_func shlex_unsafe one_of
bare c s h = ground arith

decode-bare :
    (c : ℕ) (s : Bytes)
    → contains_func shlex_unsafe (c ∷ s) ≡ false
    → decode_shell_token (c ∷ s) ≡ ok (c ∷ s)
unfolding decode_shell_token
decode-bare c s safe =
    rw (bare c s safe, contains_separator (c ∷ s) safe)
      (ap (λ e. check_canonical e (c ∷ s)) (sym (shlex_quote-safe c s safe))
        ∙ check_canonical-quote (c ∷ s))

pub decode-quote : (s : Bytes) → decode_shell_token (shlex_quote s) ≡ ok s
decode-quote [] =
    unfold decode_shell_token shlex_quote scan has_prefix check_canonical bytes_eq in refl
decode-quote (c ∷ s) = elim (Bool-cases (contains_func shlex_unsafe (c ∷ s))) [
  | inl unsafe ↦
      let quoted = shlex_quote-unsafe c s unsafe in rw quoted (decode-single_quote (c ∷ s) quoted)
  | inr safe ↦ rw (shlex_quote-safe c s safe) (decode-bare c s safe)
]

check_canonical_sound : (e s t : Bytes) → check_canonical e s ≡ ok t → (e ≡ shlex_quote t)
unfolding check_canonical
check_canonical_sound e s t h = ground (arith, bytes_eq_iff (shlex_quote s) e)

check_quoted_sound :
    (e : Bytes) (o : Option (Bytes × Bytes)) (t : Bytes)
    → check_quoted e o ≡ ok t
    → e ≡ shlex_quote t
check_quoted_sound e none t h = cc
check_quoted_sound e (some (v, [])) t h = check_canonical_sound e v t h
check_quoted_sound e (some (v, c ∷ rest)) t h = cc

decode_sound : (e t : Bytes) → decode_shell_token e ≡ ok t → e ≡ shlex_quote t
unfolding decode_shell_token
decode_sound [] t h = cc
decode_sound (c ∷ s) t h =
    ground (
      arith,
      check_quoted_sound (c ∷ s) (scan zero s []) t,
      check_canonical_sound (c ∷ s) (c ∷ s) t,
    )

-- A token decodes to a text exactly if it is the quoting of that text: quoting is undone for every
-- text, whatever bytes it holds, and no other spelling of a token is accepted.
pub decode_shell_token_iff : (e s : Bytes) → (decode_shell_token e ≡ ok s) ↔ (e ≡ shlex_quote s)
decode_shell_token_iff e s = (decode_sound e s, λ h. rw h (decode-quote s))
