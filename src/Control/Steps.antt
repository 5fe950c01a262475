-- ===== src/Control/Steps.antt =====
-- pkg/bridge/control/server.go as a transition system: a step is one critical section of a call, or
-- the end of a goroutine, in whatever order the scheduler picks. What the native sandbox and its
-- factory return is whatever they like.
use aries.Base.{Bool, false, Bytes, List, [], Option, some, ◌≡◌, lookup, insert}
use aries.Core.Errors.{GoError}
use aries.Control.State.{RegisterRequest, Endpoint, Artifact, Entry, Server, register, release}
use aries.Control.Entry.{finish_register, finish_release}
use aries.Control.Calls.{register_sandbox, release_sandbox, begin_close}

-- `NewServer`: no entry yet.
abbrev pub new_server : Server
new_server = record { entries = []; closing = false; registered = [] }

pub data Step (s : Server) : Server → Type 0 where
  register_call : (r : RegisterRequest) → Step s (register_sandbox r s).0
  release_call : (id : Bytes) → Step s (release_sandbox id s).0
  close_call : Step s (begin_close s).0
  registered :
      (id : Bytes) (e : Entry) (native : Bool) (endpoint : Option Endpoint) (err : Option GoError)
      → lookup id s.entries ≡ some e
      → e.running ≡ some register
      → Step s (record s { entries = insert id (finish_register native endpoint err e) s.entries })
  released :
      (id : Bytes) (e : Entry) (artifacts : List Artifact) (err : Option GoError)
      → lookup id s.entries ≡ some e
      → e.running ≡ some release
      → Step s (record s { entries = insert id (finish_release artifacts err e) s.entries })

-- `t` comes after any number of steps.
pub data Later (s : Server) : Server → Type 0 where
  same : Later s s
  next : {t u : Server} → Later s t → Step t u → Later s u

abbrev pub Reachable : Server → Type 0
Reachable = Later new_server
