-- ===== src/Sandbox/Saves.antt =====
-- The theorem on downloads at a concrete file system, and tests.
use aries.Base.{
  ℕ, zero, suc, ℤ, pos, negsuc, true, false, [], ◌∷◌, Option, none, some, leb, if◌then◌else◌, Bytes,
  codes, bytes_eq, has_prefix, cut_prefix, contains_func, length, take, ok, err, ◌≡◌, refl, arith,
}
use aries.Core.Errors.{GoError, message}
use aries.Sandbox.Path.{
  elements, resolve_element, resolve, rooted, clean, clean_container_workdir, clean_container_path,
}
use aries.Sandbox.State.{Sandbox}
use aries.Sandbox.Transfer.{
  Download, Disk, no_result, ups, relative_elements, path_elements, leaves, output_path,
  first_regular, choose_entry, publish_temp, secure, write_temp, save_entry, download,
  download_limit,
}
use aries.Sandbox.Published.{Atomic}
use aries.Sandbox.Downloads.{IsSaved, download-IsSaved}

-- The file at the destination, and the temporary one.
record World : Type 0 where
  file : Option Bytes
  temp : Bytes

abbrev copy : ℤ → Bytes → World → World × Option GoError
copy (negsuc n) content w = (w, some (message "negative size"))
copy (pos n) content w =
    if leb n (length content)
    then (record w { temp = take n content }, none)
    else (record w { temp = content }, some (message "unexpected EOF"))

abbrev archive : Download
archive = record {
  info_size = pos 2;
  info_regular = true;
  entries =
      record { is_regular = false; size = pos 0; content = [] }
      ∷ record { is_regular = true; size = pos 2; content = codes "{}" }
      ∷ [];
  read_err = none;
}

abbrev disk : Disk World
disk = record {
  absolute = λ path. ok path;
  download_archive = λ id path w. (w, ok archive);
  make_parent = λ path w. (w, none);
  create_temp = λ path w. (record w { temp = [] }, none);
  copy_n = copy;
  chmod = λ w. (w, none);
  close_temp = λ w. (w, none);
  rename = λ path w. (record w { file = some w.temp }, none);
  remove_temp = λ w. w;
  stat = λ path w. (w, ok true);
  open_source = λ path w. (w, none);
  put_archive = λ id path w. (w, none, none);
  exec_stream = λ id c stdin w. (w, no_result, none);
}

length-take : (n : ℕ) (xs : Bytes) → leb n (length xs) ≡ true → length (take n xs) ≡ n
length-take zero xs h = refl
length-take (suc n) [] h = absurd (ground (arith, h))
length-take (suc n) (x ∷ xs) h = ground (arith, length-take n xs (ground (arith, h)))

copy_keeps : (n : ℤ) (content : Bytes) (w : World) → (copy n content w).0.file ≡ w.file
copy_keeps (negsuc n) content w = refl
copy_keeps (pos n) content w = ground arith

copy_stages :
    (n : ℤ) (content : Bytes) (w : World)
    → (copy n content w).1 ≡ none
    → pos (length (copy n content w).0.temp) ≡ n
copy_stages (negsuc n) content w h = cc
copy_stages (pos n) content w h =
    let enough : leb n (length content) ≡ true = ground (arith, h) in
    ground (arith, enough, length-take n content enough)

disk-Atomic : Atomic disk (codes "/out/log") (λ w. w.file) (λ w. w.temp)
disk-Atomic = record {
  download_kept = λ id path w. refl;
  parent_kept = λ path w. refl;
  temp_kept = λ path w. refl;
  copy_kept = copy_keeps;
  chmod_kept = λ w. refl;
  close_kept = λ w. refl;
  remove_kept = λ w. refl;
  rename_fails = λ e w h. cc;
  rename_moves = λ w h. refl;
  copy_stages = copy_stages;
  chmod_staged = λ w. refl;
  close_staged = λ w. refl;
}

abbrev sandbox : Sandbox
sandbox = record {
  owner = 1;
  container_id = codes "c1";
  container_name = codes "aries-sandbox-task-1-00ff";
  workdir = codes "/app";
  exec_user = [];
  artifact_dir = codes "/out/task-1/sandbox";
  run_id = codes "run-1";
  task_id = codes "task-1";
  container_owned = true;
  environment_owned = true;
  stopped = false;
  stopping = false;
  stop_err = none;
}

abbrev before : World
before = record { file = none; temp = [] }

download-IsSaved_example :
    IsSaved disk
      (codes "/out/log")
      (λ w. w.file)
      (λ w. w.temp)
      disk-Atomic
      (codes "/out")
      (some 9)
      before
      (download disk sandbox (codes "/out") (codes "/app/log") (codes "/out/log") (some 9) before)
download-IsSaved_example =
    download-IsSaved disk (codes "/out/log") (λ w. w.file) (λ w. w.temp) disk-Atomic sandbox
      (codes "/out") (codes "/app/log") (codes "/out/log") (some 9) before refl

saved :
    download_limit disk sandbox (codes "/out") (codes "/app/log") (codes "/out/log") (pos 9) before
    ≡ (record { file = some (codes "{}"); temp = codes "{}" }, none)
unfolding download_limit download output_path leaves relative_elements path_elements first_regular
    choose_entry publish_temp secure write_temp save_entry clean_container_path
    clean_container_workdir clean resolve resolve_element rooted elements contains_func has_prefix
    cut_prefix bytes_eq
saved = refl

outside :
    output_path (λ path. ok path) (codes "/out") (codes "/outer/log")
    ≡ err (message "deployment download destination is outside the configured output directory")
unfolding output_path leaves relative_elements path_elements ups elements bytes_eq
outside = refl
