-- ===== src/Session/Stop.antt =====
-- pkg/bridge/session.go and artifacts.go: `Stop`, which releases the sandbox's access and collects
-- the evidence that its manifest names.
use aries.Base.{
  ℕ, ℤ, pos, negsuc, ◌*◌, Bool, true, false, ◌&&◌, ◌||◌, not, List, [], ◌∷◌, Option, none, some,
  leb, ◌==◌, if◌then◌else◌, Bytes, codes, bytes_eq, length, lookup, insert, Result, ok, err,
  is_none,
}
use aries.Core.Errors.{GoError, message, wrapped, join, non_nil}
use aries.Control.State.{State, released, Artifact, Access}

-- What a download of one file yields: its stat, the header of the first entry of the archive, that
-- entry's bytes as they are read, and whether another entry or an error follows.
pub record Header : Type 0 where
  pub is_regular : Bool
  pub name : Bytes
  pub size : ℤ

pub record Archive : Type 0 where
  pub is_regular : Bool
  pub size : ℤ
  pub header : Result GoError Header
  pub content : Result GoError Bytes
  pub ends : Bool

-- What the session calls: the control client, the deployment, the digest and the file system.
pub record Host (W : Type 0) : Type 0 where
  pub release_sandbox : W → W × Result GoError Access
  pub running : W → W × Bool × Option GoError
  pub download_archive : Bytes → W → W × Result GoError Archive
  pub sha256_hex : Bytes → Bytes
  pub write_file : Bytes → Bytes → W → W × Option GoError
  pub remove : W → W × Option GoError
  pub is_not_exist : GoError → Bool

-- The fields of `Session` that `Stop` reads; the last four are the descriptor's id, the name of the
-- raw log, whether the service keeps one, and whether a helper was staged.
pub record Session : Type 0 where
  pub stopped : Bool
  pub registered : Bool
  pub exposed : Bool
  pub is_released : Bool
  pub collected : Bool
  pub manifest : List Artifact
  pub evidence_err : Option GoError
  pub sandbox_id : Bytes
  pub raw_log_name : Bytes
  pub retain_raw_log : Bool
  pub helper : Bool

abbrev pub tool_calls : Bytes
tool_calls = codes "tool-calls.jsonl"

abbrev pub max_artifact_bytes : ℕ
max_artifact_bytes = 256 * 1048576

unfoldable pub size_eq : ℤ → ℤ → Bool
size_eq (pos a) (pos b) = a == b
size_eq (pos a) (negsuc b) = false
size_eq (negsuc a) (pos b) = false
size_eq (negsuc a) (negsuc b) = a == b

unfoldable pub is_evidence_name : Session → Bytes → Bool
is_evidence_name s name = bytes_eq name tool_calls || bytes_eq name s.raw_log_name

abbrev pub is_bounded : ℤ → Bool
is_bounded (pos n) = leb n max_artifact_bytes
is_bounded (negsuc n) = false

-- An evidence name is its own base name, so the two tests on the header's name are one.
-- The archive entry against the manifest entry: the bytes to keep, or the error.
unfoldable pub check_content : (Bytes → Bytes) → Artifact → Archive → Result GoError Bytes
check_content digest a archive = elim archive.content [
  | err e ↦ err e
  | ok content ↦
      if not (size_eq (pos (length content)) a.size)
      then err (message "evidence length mismatch")
      else if not (bytes_eq (digest content) a.sha256)
      then err (message "evidence digest mismatch")
      else if not archive.ends
      then err (message "unexpected additional evidence archive entry")
      else ok content
]

unfoldable pub check_archive : (Bytes → Bytes) → Artifact → Archive → Result GoError Bytes
check_archive digest a archive =
    if not (archive.is_regular && size_eq archive.size a.size)
    then err (message "evidence stat does not match manifest")
    else elim archive.header [
      | err e ↦ err e
      | ok header ↦
          if not (header.is_regular && (bytes_eq header.name a.name && size_eq header.size a.size))
          then err (message "invalid evidence archive entry")
          else check_content digest a archive
    ]

-- The tests on a manifest entry: whether it is to be collected, or the error.
unfoldable pub check_entry : Session → Artifact → Option Bool → Result GoError Bool
check_entry s a none = err (message "bridge evidence manifest is incomplete or unexpected")
check_entry s a (some true) = err (message "bridge evidence manifest is incomplete or unexpected")
check_entry s a (some false) =
    if bytes_eq a.status (codes "absent")
      && (not s.exposed && (size_eq a.size (pos 0) && bytes_eq a.sha256 []))
    then ok false
    else if bytes_eq a.status (codes "complete")
    then ok true
    else err (message "bridge evidence manifest is incomplete or unexpected")

abbrev pub expected_evidence : Session → List (Bytes × Bool)
expected_evidence s =
    if s.retain_raw_log
    then (tool_calls, false) ∷ (s.raw_log_name, false) ∷ []
    else (tool_calls, false) ∷ []

abbrev pub all_seen : List (Bytes × Bool) → Bool
all_seen [] = true
all_seen ((name, seen) ∷ expected) = seen && all_seen expected

abbrev pub is_released_state : State → Bool
is_released_state released = true
is_released_state _ = false

abbrev pub no_artifacts : List Artifact → Bool
no_artifacts [] = true
no_artifacts (a ∷ as') = false

module _ {W : Type 0} (host : Host W) where
  abbrev pub materialize : Artifact → Result GoError Bytes → W → W × Option GoError
  materialize a (err e) w = (w, some e)
  materialize a (ok content) w =
      let (w', failure) = host.write_file a.name content w in
      (w', elim failure [ none ↦ none | some e ↦ some (wrapped "materialize evidence" e) ])

  abbrev pub keep_archive : Artifact → Result GoError Archive → W → W × Option GoError
  keep_archive a (err e) w = (w, some e)
  keep_archive a (ok archive) w = materialize a (check_archive host.sha256_hex a archive) w

  unfoldable pub collect_artifact : Session → Artifact → W → W × Option GoError
  collect_artifact s a w =
      if not (is_evidence_name s a.name && is_bounded a.size)
      then (w, some (message "invalid evidence manifest"))
      else let (w', archive) = host.download_archive a.name w in keep_archive a archive w'

  -- The loop over the manifest, with the evidence expected and what of it was seen.
  unfoldable pub collect_all :
      Session → List Artifact → List (Bytes × Bool) → W → W × Result GoError (List (Bytes × Bool))
  collect_all s [] expected w = (w, ok expected)
  collect_all s (a ∷ as') expected w = elim (check_entry s a (lookup a.name expected)) [
    | err e ↦ (w, err e)
    | ok false ↦ collect_all s as' (insert a.name true expected) w
    | ok true ↦
        let (w', failure) = collect_artifact s a w in
        elim failure [
          | some e ↦ (w', err e)
          | none ↦ collect_all s as' (insert a.name true expected) w'
        ]
  ]

  unfoldable pub remove_helper : Session → W → W × Option GoError
  remove_helper s w =
      let (w', failure) = host.remove w in
      if s.helper
      then elim failure [
        | none ↦ (w', none)
        | some e ↦ if host.is_not_exist e then (w', none) else (w', some e)
      ]
      else (w, none)

  -- The end of `Stop`.
  abbrev pub end_stop : Session → W → Session × W × Option GoError
  end_stop s w = let (w', failure) = remove_helper s w in (s, w', failure)

  -- An error of the evidence, with the one of the helper's removal.
  abbrev pub fail_evidence : GoError → Session → W → Session × W × Option GoError
  fail_evidence e s w =
      let (w', failure) = remove_helper s w in (s, w', join (non_nil (some e ∷ failure ∷ [])))

  abbrev pub end_collect :
      Session → Result GoError (List (Bytes × Bool)) → W → Session × W × Option GoError
  end_collect s (err e) w = (s, w, some e)
  end_collect s (ok expected) w =
      if all_seen expected
      then end_stop (record s { collected = true }) w
      else (s, w, some (message "bridge evidence missing from finalized manifest"))

  unfoldable pub collect_evidence : Session → W → Session × W × Option GoError
  collect_evidence s w =
      let (w', outcome) = collect_all s s.manifest (expected_evidence s) w in
      if s.is_released && not s.collected then end_collect s outcome w' else end_stop s w

  -- The release failed: the bridge may still run, or has exited with it or without the evidence.
  unfoldable pub release_failed :
      GoError → Session → Bool → Option GoError → W → Session × W × Option GoError
  release_failed e s running run_err w =
      let gone = message "bridge exited without finalized evidence" in
      if not (is_none run_err) || running
      then (s, w, join (non_nil (some (wrapped "bridge release unconfirmed" e) ∷ run_err ∷ [])))
      else if s.exposed
      then fail_evidence gone (record s { is_released = true; evidence_err = some gone }) w
      else collect_evidence (record s { is_released = true; collected = true }) w

  unfoldable pub release_answered : Access → Session → W → Session × W × Option GoError
  release_answered a s w =
      if not (bytes_eq a.sandbox_id s.sandbox_id)
      then (s, w, some (message "bridge sandbox identity differs"))
      else if not (is_released_state a.state && is_none a.cleanup_error)
      then (s, w, some (message "bridge access closure or evidence finalization unconfirmed"))
      else collect_evidence
          (record s {
            is_released = true;
            manifest = a.artifacts;
            collected = s.collected || (not s.exposed && no_artifacts a.artifacts);
          })
          w

  abbrev pub after_release : Session → Result GoError Access → W → Session × W × Option GoError
  after_release s (ok a) w = release_answered a s w
  after_release s (err e) w =
      let (w', running, run_err) = host.running w in release_failed e s running run_err w'

  unfoldable pub release_session : Session → W → Session × W × Option GoError
  release_session s w =
      let (w', outcome) = host.release_sandbox w in
      if s.registered && not s.is_released then after_release s outcome w' else collect_evidence s w

  unfoldable pub stop : Session → W → Session × W × Option GoError
  stop s w = elim s.evidence_err [
    | some e ↦ fail_evidence e (record s { stopped = true }) w
    | none ↦ release_session (record s { stopped = true }) w
  ]
