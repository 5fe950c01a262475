-- ===== src/Session/Collected.antt =====
-- pkg/bridge/artifacts.go: what a collection of one file without an error has done.
use aries.Base.{
  pos, true, none, Bytes, bytes_eq, bytes_eq_iff, length, Result, ok, err, ◌≡◌, refl, sym, ap,
  subst, ◌∙◌, arith,
}
use aries.Core.Errors.{GoError}
use aries.Control.State.{Artifact}
use aries.Session.Stop.{
  Host, Session, Archive, size_eq, keep_archive, check_archive, check_content, collect_artifact,
}

module _ {W : Type 0} (host : Host W) where
  -- The evidence was downloaded, is as long as the manifest says and has its digest, and was written
  -- to the file of its name.
  abbrev pub Collected : Artifact → Type 0
  Collected a =
      (w : W) × (archive : Archive) × (content : Bytes) × ((host.download_archive a.name w).1
        ≡ ok archive)
      × (archive.content ≡ ok content)
      × (size_eq (pos (length content)) a.size ≡ true)
      × (host.sha256_hex content ≡ a.sha256)
      × ((host.write_file a.name content (host.download_archive a.name w).0).1 ≡ none)

  check_content_sound :
      (a : Artifact) (archive : Archive) (content : Bytes)
      → check_content host.sha256_hex a archive ≡ ok content
      → (archive.content ≡ ok content)
        × (size_eq (pos (length content)) a.size ≡ true)
        × (host.sha256_hex content ≡ a.sha256)
  check_content_sound a archive content h = each archive.content refl
    where
      each :
          (r : Result GoError Bytes)
          → archive.content ≡ r
          → (archive.content ≡ ok content)
            × (size_eq (pos (length content)) a.size ≡ true)
            × (host.sha256_hex content ≡ a.sha256)
      each (err e) eq = absurd (unfold check_content in ground (arith, eq, h))
      each (ok read) eq =
          let same : read ≡ content = unfold check_content in ground (arith, eq, h) in
          let long : size_eq (pos (length read)) a.size ≡ true =
            unfold check_content in ground (arith, eq, h) in
          let digest : bytes_eq (host.sha256_hex read) a.sha256 ≡ true =
            unfold check_content in ground (arith, eq, h) in
          (
            eq ∙ ap ok same,
            subst (λ c. size_eq (pos (length c)) a.size ≡ true) same long,
            ap host.sha256_hex (sym same) ∙ (bytes_eq_iff (host.sha256_hex read) a.sha256).0 digest,
          )

  check_archive_content :
      (a : Artifact) (archive : Archive) (content : Bytes)
      → check_archive host.sha256_hex a archive ≡ ok content
      → check_content host.sha256_hex a archive ≡ ok content
  unfolding check_archive
  check_archive_content a archive content h = ground (arith, h)

  keep_archive_written :
      (a : Artifact) (archive : Archive) (w : W)
      → (keep_archive host a (ok archive) w).1 ≡ none
      → (content : Bytes) × (check_archive host.sha256_hex a archive ≡ ok content)
        × ((host.write_file a.name content w).1 ≡ none)
  keep_archive_written a archive w h = each (check_archive host.sha256_hex a archive) refl
    where
      each :
          (r : Result GoError Bytes)
          → check_archive host.sha256_hex a archive ≡ r
          → (content : Bytes) × (check_archive host.sha256_hex a archive ≡ ok content)
            × ((host.write_file a.name content w).1 ≡ none)
      each (err e) eq = absurd (ground (arith, eq, h))
      each (ok content) eq = (content, eq, ground (arith, eq, h))

  pub collect_artifact-Collected :
      (s : Session) (a : Artifact) (w : W) → (collect_artifact host s a w).1 ≡ none → Collected a
  collect_artifact-Collected s a w h = each (host.download_archive a.name w).1 refl kept
    where
      kept :
          (keep_archive host a
            (host.download_archive a.name w).1
            (host.download_archive a.name w).0).1
          ≡ none
      kept = unfold collect_artifact in ground (arith, h)

      each :
          (r : Result GoError Archive)
          → (host.download_archive a.name w).1 ≡ r
          → (keep_archive host a r (host.download_archive a.name w).0).1 ≡ none
          → Collected a
      each (err e) eq kept = cc
      each (ok archive) eq kept =
          let (content, checked, written) =
            keep_archive_written a archive (host.download_archive a.name w).0 kept in
          let (there, long, digest) =
            check_content_sound a archive content
              (check_archive_content a archive content checked) in
          (w, archive, content, eq, there, long, digest, written)
