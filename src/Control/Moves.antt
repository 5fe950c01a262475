-- ===== src/Control/Moves.antt =====
-- pkg/bridge/control/server.go: what one step of the service does to the entry of one id.
use aries.Base.{
  Bool, false, List, Option, none, some, Bytes, bytes_eq, bytes_eq_iff, lookup, insert,
  lookup-insert, lookup-insert_other, Bool-cases, Option-cases, ◌≡◌, ◌⊎◌, inl, inr, refl, arith,
}
use aries.Core.Errors.{GoError}
use aries.Control.State.{RegisterRequest, Endpoint, Artifact, Entry, Server, register, release}
use aries.Control.Entry.{
  registering_entry, reserved_entry, release_locked, finish_register, finish_release,
}
use aries.Control.Calls.{
  register_sandbox, register_new, release_sandbox, release_entry, begin_close, is_valid_request,
  is_identifier,
}
use aries.Control.Steps.{Step, register_call, release_call, close_call}

-- From the entry of an id to its next one; `none` is an id without an entry.
pub data Moves (id : Bytes) (closing : Bool) : Option Entry → Option Entry → Type 0 where
  stay : {o : Option Entry} → Moves id closing o o
  admit :
      (r : RegisterRequest)
      → r.sandbox_id ≡ id
      → closing ≡ false
      → Moves id closing none (some (registering_entry r))
  reserve : Moves id closing none (some (reserved_entry id))
  let_go : (e : Entry) → Moves id closing (some e) (some (release_locked e))
  end_register :
      (e : Entry) (native : Bool) (endpoint : Option Endpoint) (err : Option GoError)
      → e.running ≡ some register
      → Moves id closing (some e) (some (finish_register native endpoint err e))
  end_release :
      (e : Entry) (artifacts : List Artifact) (err : Option GoError)
      → e.running ≡ some release
      → Moves id closing (some e) (some (finish_release artifacts err e))

-- An insertion moves the entry of its key and leaves the others.
insert-Moves :
    (id k : Bytes) (c : Bool) (e : Entry) (m : List (Bytes × Entry))
    → Moves k c (lookup k m) (some e)
    → Moves id c (lookup id m) (lookup id (insert k e m))
insert-Moves id k c e m move = elim (Bool-cases (bytes_eq id k)) [
  | inl equal ↦
      let same : id ≡ k = (bytes_eq_iff id k).0 equal in rw (same, lookup-insert k e m) move
  | inr other ↦ rw (lookup-insert_other id k e m other) stay
]

register_new-Moves :
    (id : Bytes) (r : RegisterRequest) (s : Server)
    → lookup r.sandbox_id s.entries ≡ none
    → Moves id s.closing (lookup id s.entries) (lookup id (register_new r s).0.entries)
unfolding register_new
register_new-Moves id r s new = elim (Bool-cases s.closing) [
  | inl closing ↦ rw closing stay
  | inr not_closing ↦ rw not_closing (
      insert-Moves id r.sandbox_id false (registering_entry r) s.entries
        (rw new (admit r refl refl)))
]

register_sandbox-Moves :
    (id : Bytes) (r : RegisterRequest) (s : Server)
    → Moves id s.closing (lookup id s.entries) (lookup id (register_sandbox r s).0.entries)
unfolding register_sandbox
register_sandbox-Moves id r s = elim (Bool-cases (is_valid_request r)) [
  | inr bad ↦ rw bad stay
  | inl good ↦ elim (Option-cases (lookup r.sandbox_id s.entries)) [
    | inl new ↦ rw (good, new) (register_new-Moves id r s new)
    | inr (e, found) ↦ rw (good, found) stay
  ]
]

-- A release leaves a released entry alone and releases any other.
release_entry-cases :
    (k : Bytes) (e : Entry) (s : Server)
    → ((release_entry k e s).0 ≡ s)
      ⊎ ((release_entry k e s).0 ≡ record s { entries = insert k (release_locked e) s.entries })
unfolding release_entry
release_entry-cases k e s = ground arith

release_entry-Moves :
    (id k : Bytes) (e : Entry) (s : Server)
    → lookup k s.entries ≡ some e
    → Moves id s.closing (lookup id s.entries) (lookup id (release_entry k e s).0.entries)
release_entry-Moves id k e s found = elim (release_entry-cases k e s) [
  | inl left ↦ rw left stay
  | inr moved ↦
      rw moved (insert-Moves id k s.closing (release_locked e) s.entries (rw found (let_go e)))
]

release_sandbox-Moves :
    (id k : Bytes) (s : Server)
    → Moves id s.closing (lookup id s.entries) (lookup id (release_sandbox k s).0.entries)
unfolding release_sandbox
release_sandbox-Moves id k s = elim (Bool-cases (is_identifier k)) [
  | inr bad ↦ rw bad stay
  | inl good ↦ elim (Option-cases (lookup k s.entries)) [
    | inl new ↦
        rw (good, new) (insert-Moves id k s.closing (reserved_entry k) s.entries (rw new reserve))
    | inr (e, found) ↦ rw (good, found) (release_entry-Moves id k e s found)
  ]
]

pub Step-Moves :
    (id : Bytes) (s t : Server)
    → Step s t
    → Moves id s.closing (lookup id s.entries) (lookup id t.entries)
Step-Moves id s t (register_call r) = register_sandbox-Moves id r s
Step-Moves id s t (release_call k) = release_sandbox-Moves id k s
Step-Moves id s t close_call = unfold begin_close in stay
Step-Moves id s t (Step.registered k e native endpoint err found h) =
    insert-Moves id k s.closing (finish_register native endpoint err e) s.entries
      (rw found (end_register e native endpoint err h))
Step-Moves id s t (Step.released k e artifacts err found h) =
    insert-Moves id k s.closing (finish_release artifacts err e) s.entries
      (rw found (end_release e artifacts err h))
