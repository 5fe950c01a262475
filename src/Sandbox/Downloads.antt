-- ===== src/Sandbox/Downloads.antt =====
-- pkg/sandbox/sandbox.go: where a download is published, and within which limit.
use aries.Base.{
  ℕ, pos, Bool, true, false, not, Option, none, some, if◌then◌else◌, Bytes, length, Result, ok, err,
  ◌≡◌, refl, sym, subst, arith,
}
use aries.Core.Errors.{GoError, message, wrapped}
use aries.Sandbox.Path.{clean_container_path}
use aries.Sandbox.State.{Sandbox}
use aries.Sandbox.Transfer.{
  ArchiveEntry, Download, Disk, path_elements, output_path, first_regular, exceeds, stat_refuses,
  choose_entry, save_chosen, received, download,
}
use aries.Sandbox.Published.{
  Below, relative_elements-Below, Atomic, IsPublished, save_entry-IsPublished,
}

-- A chosen entry is within the limit.
abbrev IsWithin : Option ℕ → Result GoError ArchiveEntry → Type 0
IsWithin limit (ok entry) = exceeds entry.size limit ≡ false
IsWithin limit (err e) = Unit

choose_entry-IsWithin : (limit : Option ℕ) (d : Download) → IsWithin limit (choose_entry limit d)
choose_entry-IsWithin limit d =
    unfold choose_entry in
    each (stat_refuses d.info_size limit) d.info_regular (first_regular d.entries d.read_err)
  where
    sized :
        (entry : ArchiveEntry) (b : Bool)
        → exceeds entry.size limit ≡ b
        → IsWithin limit (
            if b
            then err (message "deployment download archive file size exceeds limit")
            else ok entry)
    sized entry true eq = tt
    sized entry false eq = eq

    each :
        (refused regular : Bool) (found : Result GoError ArchiveEntry)
        → IsWithin limit (
            if refused
            then err (message "deployment download source size exceeds limit")
            else if not regular
            then err (message "deployment download source must be a regular file")
            else elim found [
              | err e ↦ err e
              | ok entry ↦
                  if exceeds entry.size limit
                  then err (message "deployment download archive file size exceeds limit")
                  else ok entry
            ])
    each true regular found = tt
    each false false found = tt
    each false true (err e) = tt
    each false true (ok entry) = sized entry (exceeds entry.size limit) refl

output_path-Below :
    (absolute : Bytes → Result GoError Bytes) (root destination target path : Bytes)
    → absolute destination ≡ ok target
    → output_path absolute root destination ≡ ok path
    → (path ≡ target) × Below (path_elements root) (path_elements target)
output_path-Below absolute root destination target path there h =
    unfold output_path in
    (
      ground (arith, there, h),
      relative_elements-Below (path_elements root) (path_elements target)
          (ground (arith, there, h)),
    )

module _ {W : Type 0} (disk : Disk W) (target : Bytes) (kept : W → Option Bytes)
    (staged : W → Bytes) (atomic : Atomic disk target kept staged) where
  save_chosen-IsPublished :
      (limit : Option ℕ) (choice : Result GoError ArchiveEntry) (w w1 : W)
      → kept w1 ≡ kept w
      → IsWithin limit choice
      → IsPublished disk target kept staged atomic limit w (save_chosen disk choice target w1)
  save_chosen-IsPublished limit (err e) w w1 same fits = same
  save_chosen-IsPublished limit (ok entry) w w1 same fits =
      save_entry-IsPublished disk target kept staged atomic limit entry w w1 same fits

  received-IsPublished :
      (limit : Option ℕ) (archive : Result GoError Download) (w w1 : W)
      → kept w1 ≡ kept w
      → IsPublished disk target kept staged atomic limit w (received disk limit archive target w1)
  received-IsPublished limit (err e) w w1 same = same
  received-IsPublished limit (ok d) w w1 same =
      save_chosen-IsPublished limit (choose_entry limit d) w w1 same (choose_entry-IsWithin limit d)

  -- A download into the directory `root`, from `w`.
  abbrev pub IsSaved : Bytes → Option ℕ → W → W × Option GoError → Type 0
  IsSaved root limit w (w', none) =
      Below (path_elements root) (path_elements target)
      × ((bytes : Bytes) × (kept w' ≡ some bytes) × (exceeds (pos (length bytes)) limit ≡ false))
  IsSaved root limit w (w', some e) = kept w' ≡ kept w

  published-IsSaved :
      (root : Bytes) (limit : Option ℕ) (w : W) (outcome : W × Option GoError)
      → Below (path_elements root) (path_elements target)
      → IsPublished disk target kept staged atomic limit w outcome
      → IsSaved root limit w outcome
  published-IsSaved root limit w (w', none) below h = (below, h)
  published-IsSaved root limit w (w', some e) below h = h

  -- A download to a destination whose absolute path is `target`, on a file system that keeps its
  -- promises. Without an error, the path lies strictly below the output directory and holds a file
  -- within the limit, if one is given. With an error, what was at the path is still there.
  pub download-IsSaved :
      (s : Sandbox) (root source destination : Bytes) (limit : Option ℕ) (w : W)
      → disk.absolute destination ≡ ok target
      → IsSaved root limit w (download disk s root source destination limit w)
  download-IsSaved s root source destination limit w there =
      unfold download in cleaned (clean_container_path source)
    where
      saved :
          (path : Bytes) (placed : Result GoError Bytes)
          → output_path disk.absolute root destination ≡ placed
          → IsSaved root limit w (elim placed [
            | err e ↦ (w, some e)
            | ok at ↦
                received disk limit
                  (disk.download_archive s.container_id path w).1
                  at
                  (disk.download_archive s.container_id path w).0
          ])
      saved path (err e) eq = refl
      saved path (ok at) eq =
          let (same, below) = output_path-Below disk.absolute root destination target at there eq in
          let (w1, archive) = disk.download_archive s.container_id path w in
          subst (λ t. IsSaved root limit w (received disk limit archive t w1)) (sym same)
            (published-IsSaved root limit w (received disk limit archive target w1) below (
              received-IsPublished limit archive w w1 (atomic.download_kept s.container_id path w)))

      cleaned :
          (path : Result GoError Bytes)
          → IsSaved root limit w (elim path [
            | err e ↦ (w, some (wrapped "invalid deployment download source" e))
            | ok source' ↦ elim (output_path disk.absolute root destination) [
              | err e ↦ (w, some e)
              | ok at ↦
                  received disk limit
                    (disk.download_archive s.container_id source' w).1
                    at
                    (disk.download_archive s.container_id source' w).0
            ]
          ])
      cleaned (err e) = refl
      cleaned (ok path) = saved path (output_path disk.absolute root destination) refl
