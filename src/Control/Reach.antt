-- ===== src/Control/Reach.antt =====
-- pkg/bridge/control/server.go: what holds of an entry at any time, and how it may change.
use aries.Base.{Bool, true, Option, none, some, Bytes, lookup, ◌≡◌, refl, subst}
use aries.Control.State.{Entry, Server}
use aries.Control.Entry.{registering_entry}
use aries.Control.Steps.{same, next, Reachable}
use aries.Control.Valid.{
  Valid, registering_entry-Valid, reserved_entry-Valid, release_locked-Valid, finish_release-Valid,
  finish_register-Valid,
}
use aries.Control.Moves.{Moves, stay, admit, reserve, let_go, end_register, end_release, Step-Moves}

abbrev pub WhenThere : Bytes → Option Entry → Type 0
WhenThere id none = true ≡ true
WhenThere id (some e) = Valid id e

Moves-Valid :
    (id : Bytes) (c : Bool) (o p : Option Entry) → Moves id c o p → WhenThere id o → WhenThere id p
Moves-Valid id c o p stay v = v
Moves-Valid id c o p (admit r h _) v =
    subst (λ k. Valid k (registering_entry r)) h (registering_entry-Valid r)
Moves-Valid id c o p reserve v = reserved_entry-Valid id
Moves-Valid id c o p (let_go e) v = release_locked-Valid id e v
Moves-Valid id c o p (end_register e native endpoint err h) v =
    finish_register-Valid id e native endpoint err v h
Moves-Valid id c o p (end_release e artifacts err h) v = finish_release-Valid id e artifacts err v h

pub Reachable-entries : (id : Bytes) (s : Server) → Reachable s → WhenThere id (lookup id s.entries)
Reachable-entries id s same = unfold lookup in refl
Reachable-entries id s (next {t = t} before step) =
    Moves-Valid id t.closing (lookup id t.entries) (lookup id s.entries) (Step-Moves id t s step)
      (Reachable-entries id t before)

-- In every reachable state of the service, whatever the interleaving, an entry is under its own id
-- and busy exactly while a goroutine works on it; a registering one is being registered and its
-- context not cancelled; a ready one has an endpoint with a port from 1 to 65535, a native sandbox
-- and no goroutine; one in release has no endpoint, its registration is cancelled and, unless a
-- goroutine works on it, the error of its last release is on record; a released one has neither
-- endpoint, native sandbox nor goroutine.
pub Reachable-Valid :
    (id : Bytes) (s : Server) (e : Entry) → Reachable s → lookup id s.entries ≡ some e → Valid id e
Reachable-Valid id s e reached found = subst (WhenThere id) found (Reachable-entries id s reached)
