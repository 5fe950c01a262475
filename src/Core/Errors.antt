-- ===== src/Core/Errors.antt =====
-- Go's error values as the program builds and tests them: `errors.New`, `fmt.Errorf` with `%w`,
-- `errors.Join` and `errors.Is`. An `error` result is an `Option GoError`, `nil` being `none`; a
-- field that the source fills with `err.Error()` holds the error whose text it is.
use aries.Base.{
  String, ◌≡◌, refl, ap, List, [], ◌∷◌, ◌++◌, Bool, true, false, ◌||◌, Option, none, some, is_none,
  ◌&&◌, arith,
}

-- The values that the code tests for by `errors.Is`.
pub data Sentinel : Type 0 where
  canceled deadline_exceeded allocation_unconfirmed not_found : Sentinel

mutual
  pub data GoError : Type 0 where
    sentinel : Sentinel → GoError
    message : String → GoError
    wrapped : String → GoError → GoError  -- `fmt.Errorf("label: %w", err)`
    wrapped_for : String → String → GoError → GoError  -- `fmt.Errorf("label %q: %w", id, err)`
    joined : GoErrors → GoError

  pub data GoErrors : Type 0 where
    nil : GoErrors
    cons : GoError → GoErrors → GoErrors

abbrev pub same_sentinel : Sentinel → Sentinel → Bool
same_sentinel canceled canceled = true
same_sentinel deadline_exceeded deadline_exceeded = true
same_sentinel allocation_unconfirmed allocation_unconfirmed = true
same_sentinel not_found not_found = true
same_sentinel _ _ = false

pub same_sentinel_self : (c : Sentinel) → same_sentinel c c ≡ true
same_sentinel_self canceled = refl
same_sentinel_self _ = refl

-- `errors.Is` on an error that is not nil.
unfoldable mutual
  pub is : GoError → Sentinel → Bool
  is (sentinel s) t = same_sentinel s t
  is (message m) t = false
  is (wrapped l e) t = is e t
  is (wrapped_for l i e) t = is e t
  is (joined es) t = is_any es t

  pub is_any : GoErrors → Sentinel → Bool
  is_any nil t = false
  is_any (cons e es) t = is e t || is_any es t

abbrev pub errors_is : Option GoError → Sentinel → Bool
errors_is none t = false
errors_is (some e) t = is e t

pub to_errors : List GoError → GoErrors
to_errors [] = nil
to_errors (e ∷ es) = cons e (to_errors es)

-- `errors.Join(es...)`, where no element is nil: nil exactly on no errors.
unfoldable pub join : List GoError → Option GoError
join [] = none
join (e ∷ es) = some (joined (to_errors (e ∷ es)))

-- `errors.Join` of values that may be nil discards the nil ones.
abbrev pub non_nil : List (Option GoError) → List GoError
non_nil [] = []
non_nil (none ∷ es) = non_nil es
non_nil (some e ∷ es) = e ∷ non_nil es

pub join-eq-none : (es : List GoError) → join es ≡ none → es ≡ []
unfolding join
join-eq-none [] h = refl
join-eq-none (e ∷ es) h = ground arith

-- A list of errors holds one that `errors.Is` finds.
abbrev pub some_is : List GoError → Sentinel → Bool
some_is [] t = false
some_is (e ∷ es) t = is e t || some_is es t

is_any-to_errors : (es : List GoError) (t : Sentinel) → is_any (to_errors es) t ≡ some_is es t
unfolding is to_errors
is_any-to_errors [] t = refl
is_any-to_errors (e ∷ es) t = ap (λ b. is e t || b) (is_any-to_errors es t)

pub errors_is-join : (es : List GoError) (t : Sentinel) → errors_is (join es) t ≡ some_is es t
unfolding join is
errors_is-join [] t = refl
errors_is-join (e ∷ es) t = is_any-to_errors (e ∷ es) t

pub some_is-append :
    (xs ys : List GoError) (t : Sentinel) → some_is (xs ++ ys) t ≡ (some_is xs t || some_is ys t)
some_is-append [] ys t = refl
some_is-append (x ∷ xs) ys t = ground (arith, some_is-append xs ys t)

-- No error is among them.
abbrev pub none_in : List (Option GoError) → Bool
none_in [] = true
none_in (e ∷ es) = is_none e && none_in es

pub none_in-append :
    (xs ys : List (Option GoError)) → none_in (xs ++ ys) ≡ (none_in xs && none_in ys)
none_in-append [] ys = refl
none_in-append (x ∷ xs) ys = ground (arith, none_in-append xs ys)

pub non_nil-eq-nil : (es : List (Option GoError)) → non_nil es ≡ [] → none_in es ≡ true
non_nil-eq-nil [] h = refl
non_nil-eq-nil (none ∷ es) h = ground (arith, non_nil-eq-nil es h)
non_nil-eq-nil (some e ∷ es) h = cc
