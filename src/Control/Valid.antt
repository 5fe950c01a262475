-- ===== src/Control/Valid.antt =====
-- pkg/bridge/control/server.go: what holds of every entry, whatever the order of calls and goroutines.
use aries.Base.{
  Bool, true, false, ◌&&◌, not, List, Option, none, some, ltb, Bytes, ◌≡◌, ◌⊎◌, inl, inr, refl,
  arith, is_none,
}
use aries.Core.Errors.{GoError}
use aries.Control.State.{
  State, unspecified, registering, ready, releasing, released, RegisterRequest, Endpoint, Artifact,
  Entry, register, release,
}
use aries.Control.Entry.{
  registering_entry, reserved_entry, begin_release, release_locked, registration_error,
  record_failure, publish, finish_register, finish_release,
}

abbrev pub is_ready_port : Option Endpoint → Bool
is_ready_port none = false
is_ready_port (some p) = ltb 0 p.port && ltb p.port 65536

-- What the state of an entry says of its other fields.
abbrev pub Phase : State → Entry → Type 0
Phase unspecified e = true ≡ false
Phase registering e =
    (e.running ≡ some register)
    × (e.access.endpoint ≡ none)
    × (e.native ≡ false)
    × (e.cancelled ≡ false)
    × (e.cancel ≡ true)
    × (e.operation ≡ 1)
Phase ready e =
    (e.running ≡ none)
    × (is_ready_port e.access.endpoint ≡ true)
    × (e.native ≡ true)
    × (e.cancelled ≡ true)
Phase releasing e =
    (e.access.endpoint ≡ none)
    × (e.cancelled ≡ true)
    × ((is_none e.running && is_none e.access.cleanup_error) ≡ false)
Phase released e =
    (e.running ≡ none) × (e.access.endpoint ≡ none) × (e.native ≡ false) × (e.cancel ≡ false)

abbrev pub Valid : Bytes → Entry → Type 0
Valid id e =
    (e.access.sandbox_id ≡ id) × (e.busy ≡ not (is_none e.running)) × Phase e.access.state e

-- The five states, for a case split.
pub State-cases :
    (s : State)
    → (s ≡ unspecified) ⊎ ((s ≡ registering) ⊎ ((s ≡ ready) ⊎ ((s ≡ releasing) ⊎ (s ≡ released))))
State-cases unspecified = inl refl
State-cases registering = inr (inl refl)
State-cases ready = inr (inr (inl refl))
State-cases releasing = inr (inr (inr (inl refl)))
State-cases released = inr (inr (inr (inr refl)))

pub registering_entry-Valid : (r : RegisterRequest) → Valid r.sandbox_id (registering_entry r)
registering_entry-Valid r = ground arith

pub reserved_entry-Valid : (id : Bytes) → Valid id (reserved_entry id)
reserved_entry-Valid id = ground arith

pub release_locked-Valid : (id : Bytes) (e : Entry) → Valid id e → Valid id (release_locked e)
unfolding release_locked begin_release
release_locked-Valid id e v = ground arith

pub finish_release-Valid :
    (id : Bytes) (e : Entry) (artifacts : List Artifact) (err : Option GoError)
    → Valid id e
    → e.running ≡ some release
    → Valid id (finish_release artifacts err e)
unfolding finish_release
finish_release-Valid id e artifacts err v h = ground arith

pub finish_register-Valid :
    (id : Bytes) (e : Entry) (native : Bool) (endpoint : Option Endpoint) (err : Option GoError)
    → Valid id e
    → e.running ≡ some register
    → Valid id (finish_register native endpoint err e)
unfolding finish_register publish record_failure registration_error release_locked begin_release
finish_register-Valid id e native endpoint err v h = ground arith
