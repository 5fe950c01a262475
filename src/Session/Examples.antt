-- ===== src/Session/Examples.antt =====
-- The theorems on a session's Stop at a concrete host, and tests.
use aries.Base.{
  ℕ, pos, true, false, List, [], ◌∷◌, none, codes, bytes_eq, lookup, insert, ok, ◌≡◌, refl, is_none,
}
use aries.Control.State.{released, Artifact, Access}
use aries.Session.Stop.{
  Host, Session, tool_calls, size_eq, is_evidence_name, check_content, check_archive, check_entry,
  collect_artifact, collect_all, collect_evidence, release_answered, release_session, remove_helper,
  stop,
}

abbrev evidence : Artifact
evidence = record {
  name = tool_calls;
  status = codes "complete";
  size = pos 2;
  sha256 = codes "d1";
}

abbrev access_of : List Artifact → Access
access_of artifacts = record {
  sandbox_id = codes "task-1";
  state = released;
  endpoint = none;
  artifacts = artifacts;
  error = none;
  cleanup_error = none;
}

-- A host whose archive holds the two bytes that the manifest promises.
abbrev host_of : List Artifact → Host ℕ
host_of artifacts = record {
  release_sandbox = λ w. (w, ok (access_of artifacts));
  running = λ w. (w, true, none);
  download_archive = λ name w. (
    w,
    ok (record {
      is_regular = true;
      size = pos 2;
      header = ok (record { is_regular = true; name = name; size = pos 2 });
      content = ok (codes "{}");
      ends = true;
    }),
  );
  sha256_hex = λ content. codes "d1";
  write_file = λ name content w. (w, none);
  remove = λ w. (w, none);
  is_not_exist = λ e. false;
}

abbrev session : Session
session = record {
  stopped = false;
  registered = true;
  exposed = true;
  is_released = false;
  collected = false;
  manifest = [];
  evidence_err = none;
  sandbox_id = codes "task-1";
  raw_log_name = codes "ssh_raw.log";
  retain_raw_log = false;
  helper = false;
}

missing : is_none (stop (host_of []) session 0).2 ≡ false
unfolding stop remove_helper release_session release_answered collect_evidence collect_all lookup
    insert bytes_eq
missing = refl

twice : is_none (stop (host_of (evidence ∷ evidence ∷ [])) session 0).2 ≡ false
unfolding stop remove_helper release_session release_answered collect_evidence collect_all
    collect_artifact check_entry check_archive check_content is_evidence_name size_eq lookup insert
    bytes_eq
twice = refl
