-- ===== src/Sandbox/Transfer.antt =====
-- pkg/sandbox/sandbox.go: `Exec`, `Upload`, `Download` with `DownloadLimit`, and `outputPath`.
use aries.Base.{
  ℕ, ℤ, pos, negsuc, Bool, true, false, ◌||◌, not, List, [], ◌∷◌, ◌++◌, Option, none, some, ltb,
  if◌then◌else◌, Bytes, codes, bytes_eq, length, Result, ok, err,
}
use aries.Core.Errors.{GoError, message, wrapped, join, non_nil}
use aries.Sandbox.Path.{elements, clean_container_path}
use aries.Sandbox.Checks.{Command, is_negative, prepare_command}
use aries.Sandbox.State.{Sandbox}

-- An entry of an archive, with what of its content can be read; and the end of the archive, which is
-- an error or the end of the file.
pub record ArchiveEntry : Type 0 where
  pub is_regular : Bool
  pub size : ℤ
  pub content : Bytes

pub record Download : Type 0 where
  pub info_size : ℤ
  pub info_regular : Bool
  pub entries : List ArchiveEntry
  pub read_err : Option GoError

abbrev pub max_exec_input : ℕ
max_exec_input = 16777216

-- core.CommandResult, without the duration.
pub record CommandResult : Type 0 where
  pub exit_code : ℤ
  pub stdout : Bytes
  pub stderr : Bytes

abbrev pub no_result : CommandResult
no_result = record { exit_code = negsuc 0; stdout = []; stderr = [] }

-- What a transfer calls. `copy_n` writes the first bytes of a content to the temporary file, and
-- `put_archive` is UploadArchive with the pipe that the file is written to: the deployment's error
-- and the writer's. `stat` says whether the source is regular.
pub record Disk (W : Type 0) : Type 0 where
  pub absolute : Bytes → Result GoError Bytes
  pub download_archive : Bytes → Bytes → W → W × Result GoError Download
  pub make_parent : Bytes → W → W × Option GoError
  pub create_temp : Bytes → W → W × Option GoError
  pub copy_n : ℤ → Bytes → W → W × Option GoError
  pub chmod : W → W × Option GoError
  pub close_temp : W → W × Option GoError
  pub rename : Bytes → W → W × Option GoError
  pub remove_temp : W → W
  pub stat : Bytes → W → W × Result GoError Bool
  pub open_source : Bytes → W → W × Option GoError
  pub put_archive : Bytes → Bytes → W → W × Option GoError × Option GoError
  pub exec_stream : Bytes → Command → Bytes → W → W × CommandResult × Option GoError

-- `filepath.Rel` on two rooted, clean paths, by their elements: up from what is left of the base, and
-- then down to the target.
unfoldable pub ups : List Bytes → List Bytes
ups [] = []
ups (b ∷ base) = codes ".." ∷ ups base

unfoldable pub relative_elements : List Bytes → List Bytes → List Bytes
relative_elements [] target = target
relative_elements (b ∷ base) [] = ups (b ∷ base)
relative_elements (b ∷ base) (t ∷ target) =
    let rest = relative_elements base target in
    if bytes_eq b t then rest else ups (b ∷ base) ++ t ∷ target

-- The elements of a rooted, clean path; the root has none.
unfoldable pub path_elements : Bytes → List Bytes
path_elements path = if bytes_eq path (codes "/") then [] else (elements path).1

-- `relative == "."`, or `".."`, or it begins with `"../"`.
unfoldable pub leaves : List Bytes → Bool
leaves [] = true
leaves (c ∷ cs) = bytes_eq c (codes "..")

unfoldable pub output_path : (Bytes → Result GoError Bytes) → Bytes → Bytes → Result GoError Bytes
output_path absolute root destination = elim (absolute destination) [
  | err e ↦ err (wrapped "resolve deployment download destination" e)
  | ok path ↦
      if leaves (relative_elements (path_elements root) (path_elements path))
      then err
          (message "deployment download destination is outside the configured output directory")
      else ok path
]

-- The loop over the archive, to its first regular file.
unfoldable pub first_regular : List ArchiveEntry → Option GoError → Result GoError ArchiveEntry
first_regular [] none = err (message "deployment download archive contains no regular file")
first_regular [] (some e) = err (wrapped "read deployment download archive" e)
first_regular (entry ∷ entries) end =
    let rest = first_regular entries end in if entry.is_regular then ok entry else rest

-- `a > b`, where the limit is given.
abbrev pub exceeds : ℤ → Option ℕ → Bool
exceeds size none = false
exceeds (pos n) (some limit) = ltb limit n
exceeds (negsuc n) (some limit) = false

abbrev pub stat_refuses : ℤ → Option ℕ → Bool
stat_refuses size none = false
stat_refuses size (some limit) = is_negative size || exceeds size (some limit)

-- The checks on the archive: the file to keep, or the error.
unfoldable pub choose_entry : Option ℕ → Download → Result GoError ArchiveEntry
choose_entry limit d =
    if stat_refuses d.info_size limit
    then err (message "deployment download source size exceeds limit")
    else if not d.info_regular
    then err (message "deployment download source must be a regular file")
    else elim (first_regular d.entries d.read_err) [
      | err e ↦ err e
      | ok entry ↦
          if exceeds entry.size limit
          then err (message "deployment download archive file size exceeds limit")
          else ok entry
    ]

module _ {W : Type 0} (disk : Disk W) where
  -- One step on the temporary file, whose error ends the download; then the deferred removal.
  abbrev pub give_up : GoError → W → W × Option GoError
  give_up e w = (disk.remove_temp w, some e)

  unfoldable pub publish_temp : Bytes → W → W × Option GoError
  publish_temp destination w =
      let (w1, failure) = disk.rename destination w in
      elim failure [
        | some e ↦ give_up (wrapped "publish deployment download" e) w1
        | none ↦ (disk.remove_temp w1, none)
      ]

  unfoldable pub secure : Bytes → W → W × Option GoError
  secure destination w =
      let (w1, open_to_all) = disk.chmod w in
      let (w2, unclosed) = disk.close_temp w1 in
      let next = publish_temp destination w2 in
      elim open_to_all [
        | some e ↦ give_up (wrapped "secure deployment download" e) w2
        | none ↦ elim unclosed [
          | some e ↦ give_up (wrapped "close deployment download" e) w2
          | none ↦ next
        ]
      ]

  unfoldable pub write_temp : ArchiveEntry → Bytes → W → W × Option GoError
  write_temp entry destination w =
      let (w1, failure) = disk.copy_n entry.size entry.content w in
      let (closed, _) = disk.close_temp w1 in
      let next = secure destination w1 in
      elim failure [ some e ↦ give_up (wrapped "write deployment download" e) closed | none ↦ next ]

  unfoldable pub save_entry : ArchiveEntry → Bytes → W → W × Option GoError
  save_entry entry destination w =
      let (w1, no_dir) = disk.make_parent destination w in
      let (w2, no_temp) = disk.create_temp destination w1 in
      let next = write_temp entry destination w2 in
      elim no_dir [
        | some e ↦ (w1, some (wrapped "create deployment download directory" e))
        | none ↦ elim no_temp [
          | some e ↦ (w2, some (wrapped "create deployment download destination" e))
          | none ↦ next
        ]
      ]

  abbrev pub save_chosen : Result GoError ArchiveEntry → Bytes → W → W × Option GoError
  save_chosen (err e) destination w = (w, some e)
  save_chosen (ok entry) destination w = save_entry entry destination w

  abbrev pub received : Option ℕ → Result GoError Download → Bytes → W → W × Option GoError
  received limit (err e) destination w = (w, some (wrapped "download task file" e))
  received limit (ok d) destination w = save_chosen (choose_entry limit d) destination w

  unfoldable pub download : Sandbox → Bytes → Bytes → Bytes → Option ℕ → W → W × Option GoError
  download s output_dir source destination limit w = elim (clean_container_path source) [
    | err e ↦ (w, some (wrapped "invalid deployment download source" e))
    | ok path ↦ elim (output_path disk.absolute output_dir destination) [
      | err e ↦ (w, some e)
      | ok target ↦
          let (w1, archive) = disk.download_archive s.container_id path w in
          received limit archive target w1
    ]
  ]

  -- `DownloadLimit`; `Download` is `download` without a limit.
  unfoldable pub download_limit : Sandbox → Bytes → Bytes → Bytes → ℤ → W → W × Option GoError
  download_limit s output_dir source destination (pos limit) w =
      download s output_dir source destination (some limit) w
  download_limit s output_dir source destination (negsuc n) w =
      (w, some (message "deployment download byte limit must be nonnegative"))

  abbrev pub put_file : Bytes → Bytes → Bytes → W → W × Option GoError
  put_file container source destination w =
      let (w1, unopened) = disk.open_source source w in
      let (w2, copy_err, write_err) = disk.put_archive container destination w1 in
      elim unopened [
        | some e ↦ (w1, some (wrapped "open deployment upload source" e))
        | none ↦ elim (join (non_nil (copy_err ∷ write_err ∷ []))) [
          | some e ↦ (w2, some (wrapped "upload file to deployment task container" e))
          | none ↦ (w2, none)
        ]
      ]

  abbrev pub put_regular : Result GoError Bool → Bytes → Bytes → Bytes → W → W × Option GoError
  put_regular (err e) container source destination w =
      (w, some (wrapped "stat deployment upload source" e))
  put_regular (ok false) container source destination w =
      (w, some (message "deployment upload source must be a regular file"))
  put_regular (ok true) container source destination w = put_file container source destination w

  unfoldable pub upload : Sandbox → Bytes → Bytes → W → W × Option GoError
  upload s source destination w = elim (clean_container_path destination) [
    | err e ↦ (w, some (wrapped "invalid deployment upload destination" e))
    | ok path ↦
        let (w1, regular) = disk.stat source w in put_regular regular s.container_id source path w1
  ]

  -- `ExecStream`, and `Exec` with its limit on the standard input.
  unfoldable pub exec_stream : Sandbox → Command → Bytes → W → W × CommandResult × Option GoError
  exec_stream s command stdin w = elim (prepare_command command s.workdir s.exec_user) [
    | err e ↦ (w, no_result, some e)
    | ok prepared ↦ disk.exec_stream s.container_id prepared stdin w
  ]

  unfoldable pub exec_command : Sandbox → Command → Bytes → W → W × CommandResult × Option GoError
  exec_command s command stdin w =
      let result = exec_stream s command stdin w in
      if ltb max_exec_input (length stdin)
      then (w, no_result, some (message "deployment exec stdin exceeds maxExecInput bytes"))
      else result
