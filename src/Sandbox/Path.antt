-- ===== src/Sandbox/Path.antt =====
-- pkg/sandbox/sandbox.go: the paths inside a container, `cleanContainerPath` and
-- `cleanContainerWorkdir`, with `filepath.Clean` as it acts on a rooted path.
use aries.Base.{
  ℕ, Bool, ◌||◌, not, List, [], ◌∷◌, ◌++◌, ◌==◌, if◌then◌else◌, Bytes, codes, bytes_eq, has_prefix,
  contains_func, Result, ok, err,
}
use aries.Core.Errors.{GoError, message}

abbrev pub is_slash : ℕ → Bool
is_slash c = c == 47

abbrev pub is_nul : ℕ → Bool
is_nul c = c == 0

-- The elements of a path: what stands before the first slash, and the rest.
unfoldable pub elements : Bytes → Bytes × List Bytes
elements [] = ([], [])
elements (c ∷ path) =
    let rest = elements path in if is_slash c then ([], rest.0 ∷ rest.1) else (c ∷ rest.0, rest.1)

unfoldable pub drop_last : List Bytes → List Bytes
drop_last [] = []
drop_last (x ∷ []) = []
drop_last (x ∷ y ∷ xs) = x ∷ drop_last (y ∷ xs)

-- One element after those kept: an empty one and `.` are dropped, and `..` takes the last one away.
unfoldable pub resolve_element : List Bytes → Bytes → List Bytes
resolve_element kept c =
    if bytes_eq c [] || bytes_eq c (codes ".")
    then kept
    else if bytes_eq c (codes "..")
    then drop_last kept
    else kept ++ c ∷ []

unfoldable pub resolve : List Bytes → List Bytes → List Bytes
resolve kept [] = kept
resolve kept (c ∷ cs) = resolve (resolve_element kept c) cs

unfoldable pub rooted : List Bytes → Bytes
rooted [] = []
rooted (c ∷ cs) = 47 ∷ c ++ rooted cs

abbrev pub render : List Bytes → Bytes
render [] = 47 ∷ []
render (c ∷ cs) = rooted (c ∷ cs)

-- `filepath.Clean` on a path that begins with a slash.
unfoldable pub clean : Bytes → Bytes
clean path = render (resolve [] (elements path).1)

unfoldable pub clean_container_workdir : Bytes → Result GoError Bytes
clean_container_workdir path =
    if bytes_eq path [] || (contains_func is_nul path || not (has_prefix path (codes "/")))
    then err (message "path must be absolute, nonempty, and NUL-free")
    else if not (bytes_eq (clean path) path)
    then err (message "path must be clean")
    else ok (clean path)

unfoldable pub clean_container_path : Bytes → Result GoError Bytes
clean_container_path path = elim (clean_container_workdir path) [
  | err e ↦ err e
  | ok cleaned ↦
      if bytes_eq cleaned (codes "/")
      then err (message "path must not be the container root")
      else ok cleaned
]
