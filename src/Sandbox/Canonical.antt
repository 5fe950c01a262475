-- ===== src/Sandbox/Canonical.antt =====
-- pkg/sandbox/sandbox.go: which container paths are accepted.
use aries.Base.{
  Bool, true, false, ◌&&◌, ◌||◌, not, List, [], ◌∷◌, ◌++◌, Bytes, codes, bytes_eq, bytes_eq_iff,
  has_prefix, cut_prefix, cut_prefix-append, contains_func, contains_func-append, append-nil,
  append_assoc, ok, All, All-append, ◌≡◌, ◌↔◌, inl, inr, refl, sym, ap, subst, ◌∙◌, arith,
  Bool-cases,
}
use aries.Sandbox.Path.{
  is_slash, is_nul, elements, drop_last, resolve_element, resolve, rooted, render, clean,
  clean_container_workdir,
}

-- The name of a file: not empty, not `.` or `..`, without a slash and without a NUL.
abbrev pub is_plain : Bytes → Bool
is_plain c = not (contains_func is_slash c || contains_func is_nul c)

abbrev pub is_file_name : Bytes → Bool
is_file_name c =
    not (bytes_eq c [])
    && (not (bytes_eq c (codes ".")) && (not (bytes_eq c (codes "..")) && is_plain c))

abbrev pub FileName : Bytes → Type 0
FileName c = is_file_name c ≡ true

abbrev pub Plain : Bytes → Type 0
Plain c = is_plain c ≡ true

-- A path that is the root, or the names of files, each behind one slash.
abbrev pub Canonical : Bytes → Type 0
Canonical path = (names : List Bytes) × (path ≡ render names) × All FileName names

abbrev PlainElements : Bytes × List Bytes → Type 0
PlainElements (first, rest) = Plain first × All Plain rest

elements-Plain : (path : Bytes) → contains_func is_nul path ≡ false → PlainElements (elements path)
unfolding elements contains_func
elements-Plain [] h = (refl, tt)
elements-Plain (c ∷ path) h =
    let (first, rest) = elements-Plain path (ground (arith, h)) in
    elim (Bool-cases (is_slash c)) [
      | inl slash ↦ subst PlainElements (sym (split slash)) (refl, (first, rest))
      | inr other ↦ subst PlainElements (sym (keep other)) (ground (arith, other, first, h), rest)
    ]
  where
    split : is_slash c ≡ true → elements (c ∷ path) ≡ ([], (elements path).0 ∷ (elements path).1)
    split slash = ground (arith, slash)

    keep : is_slash c ≡ false → elements (c ∷ path) ≡ (c ∷ (elements path).0, (elements path).1)
    keep other = ground (arith, other)

drop_last-FileName : (xs : List Bytes) → All FileName xs → All FileName (drop_last xs)
unfolding drop_last
drop_last-FileName [] h = tt
drop_last-FileName (x ∷ []) h = tt
drop_last-FileName (x ∷ y ∷ xs) (p, h) = (p, drop_last-FileName (y ∷ xs) h)

resolve_element-FileName :
    (kept : List Bytes) (c : Bytes)
    → All FileName kept
    → Plain c
    → All FileName (resolve_element kept c)
unfolding resolve_element
resolve_element-FileName kept c h plain =
    elim (Bool-cases (bytes_eq c [] || bytes_eq c (codes "."))) [
      | inl dropped ↦ subst (All FileName) (ground (arith, dropped)) h
      | inr named ↦ elim (Bool-cases (bytes_eq c (codes ".."))) [
        | inl up ↦ subst (All FileName) (ground (arith, named, up)) (drop_last-FileName kept h)
        | inr down ↦
            subst (All FileName) (ground (arith, named, down))
              (All-append FileName kept (c ∷ []) h (ground (arith, named, down, plain), tt))
      ]
    ]

resolve-FileName :
    (kept cs : List Bytes) → All FileName kept → All Plain cs → All FileName (resolve kept cs)
unfolding resolve
resolve-FileName kept [] h plain = h
resolve-FileName kept (c ∷ cs) h (p, plain) =
    resolve-FileName (resolve_element kept c) cs (resolve_element-FileName kept c h p) plain

-- Names of files are kept as they are.
resolve_append : (kept names : List Bytes) → All FileName names → resolve kept names ≡ kept ++ names
unfolding resolve
resolve_append kept [] h = sym (append-nil kept)
resolve_append kept (c ∷ cs) (p, h) =
    ap (λ k. resolve k cs) step
    ∙ (resolve_append (kept ++ c ∷ []) cs h ∙ append_assoc kept (c ∷ []) cs)
  where
    step : resolve_element kept c ≡ kept ++ c ∷ []
    step = unfold resolve_element in ground (arith, p)

elements-name :
    (c path : Bytes)
    → contains_func is_slash c ≡ false
    → elements (c ++ path) ≡ (c ++ (elements path).0, (elements path).1)
unfolding elements contains_func
elements-name [] path h = refl
elements-name (x ∷ c) path h = ground (arith, h, elements-name c path (ground (arith, h)))

pub elements-rooted :
    (names : List Bytes) → All FileName names → elements (rooted names) ≡ ([], names)
unfolding elements rooted
elements-rooted [] h = refl
elements-rooted (c ∷ cs) (p, h) =
    let named = elements-name c (rooted cs) (ground (arith, p)) in
    let rest = elements-rooted cs h in unfold elements in ground (arith, named, rest, append-nil c)

rooted-is_nul :
    (names : List Bytes) → All FileName names → contains_func is_nul (rooted names) ≡ false
unfolding rooted contains_func
rooted-is_nul [] h = refl
rooted-is_nul (c ∷ cs) (p, h) =
    ground (arith, p, contains_func-append is_nul c (rooted cs), rooted-is_nul cs h)

clean-rooted : (names : List Bytes) → All FileName names → clean (render names) ≡ render names
clean-rooted names h = unfold clean in ap render (kept names h)
  where
    later : Bytes × List Bytes → List Bytes
    later (first, rest) = resolve [] rest

    kept :
        (names : List Bytes) → All FileName names → resolve [] (elements (render names)).1 ≡ names
    kept [] h = unfold elements resolve resolve_element bytes_eq in refl
    kept (c ∷ cs) h = ap later (elements-rooted (c ∷ cs) h) ∙ resolve_append [] (c ∷ cs) h

workdir-guard :
    (path cleaned : Bytes)
    → clean_container_workdir path ≡ ok cleaned
    → (contains_func is_nul path ≡ false) × (clean path ≡ path) × (cleaned ≡ clean path)
unfolding clean_container_workdir
workdir-guard path cleaned h =
    let nul : contains_func is_nul path ≡ false = ground (arith, h) in
    let same : bytes_eq (clean path) path ≡ true = ground (arith, h) in
    (nul, (bytes_eq_iff (clean path) path).0 same, ground (arith, h))

workdir-accepts :
    (path : Bytes)
    → contains_func is_nul path ≡ false
    → has_prefix path (codes "/") ≡ true
    → clean path ≡ path
    → clean_container_workdir path ≡ ok path
unfolding clean_container_workdir
workdir-accepts [] nul prefix same = absurd (unfold has_prefix cut_prefix in cc)
workdir-accepts (c ∷ path) nul prefix same =
    let equal = (bytes_eq_iff (clean (c ∷ path)) (c ∷ path)).1 same in
    ground (arith, nul, prefix, equal, same, bytes_eq_nil)
  where
    bytes_eq_nil : bytes_eq (c ∷ path) [] ≡ false
    bytes_eq_nil = unfold bytes_eq in refl

slash_first : (path : Bytes) → has_prefix (47 ∷ path) (codes "/") ≡ true
unfolding has_prefix
slash_first path = ground (arith, cut_prefix-append (codes "/") path)

render-accepted :
    (names : List Bytes)
    → All FileName names
    → clean_container_workdir (render names) ≡ ok (render names)
render-accepted [] h =
    workdir-accepts (render []) (unfold contains_func in refl) (slash_first []) (clean-rooted [] h)
render-accepted (c ∷ cs) h =
    workdir-accepts (render (c ∷ cs)) (rooted-is_nul (c ∷ cs) h)
      (unfold rooted in slash_first (c ++ rooted cs)) (clean-rooted (c ∷ cs) h)

-- A working directory is accepted, and then as it is, exactly when it is the root or is made of the
-- names of files, each behind one slash: without `.`, `..`, an empty name, a trailing slash or a NUL.
-- No other path is accepted, nor turned into another one.
pub clean_container_workdir_iff :
    (path cleaned : Bytes)
    → (clean_container_workdir path ≡ ok cleaned) ↔ ((cleaned ≡ path) × Canonical path)
clean_container_workdir_iff path cleaned = (to, from)
  where
    to : clean_container_workdir path ≡ ok cleaned → (cleaned ≡ path) × Canonical path
    to h =
        let (nul, same, eq) = workdir-guard path cleaned h in
        let (_, plain) = elements-Plain path nul in
        (
          eq ∙ same,
          (
            resolve [] (elements path).1,
            sym same ∙ (unfold clean in refl),
            resolve-FileName [] (elements path).1 tt plain,
          ),
        )

    from : (cleaned ≡ path) × Canonical path → clean_container_workdir path ≡ ok cleaned
    from (kept, (names, eq, h)) =
        subst (λ p. clean_container_workdir p ≡ ok p) (sym eq) (render-accepted names h)
        ∙ ap ok (sym kept)
