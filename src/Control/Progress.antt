-- ===== src/Control/Progress.antt =====
-- pkg/bridge/control/server.go: a release that the native sandbox grants comes to its end.
use aries.Base.{
  Bool, true, List, Option, none, some, Bytes, lookup, ◌≡◌, ◌≢◌, ◌⊎◌, inl, inr, refl, arith,
}
use aries.Core.Errors.{GoError}
use aries.Control.State.{
  releasing, released, Endpoint, Artifact, Entry, Server, Running, register, release,
}
use aries.Control.Entry.{
  begin_release, release_locked, registration_error, record_failure, publish, finish_register,
  finish_release,
}
use aries.Control.Calls.{release_sandbox, is_identifier}
use aries.Control.Steps.{Reachable, next, release_call}
use aries.Control.Reach.{Reachable-Valid}
use aries.Control.Release.{release_sandbox-IsLeaving}

finish_release-released :
    (artifacts : List Artifact) (e : Entry)
    → (finish_release artifacts none e).access.state ≡ released
unfolding finish_release
finish_release-released artifacts e = ground arith

finish_register-leaving :
    (native : Bool) (endpoint : Option Endpoint) (err : Option GoError) (e : Entry)
    → e.access.state ≡ releasing
    → ((finish_register native endpoint err e).access.state ≡ releasing)
      × ((finish_register native endpoint err e).running ≡ some release)
unfolding finish_register publish record_failure registration_error release_locked begin_release
finish_register-leaving native endpoint err e h = (ground (arith, h), ground (arith, h))

Running-cases : (o : Option Running) → (o ≡ none) ⊎ ((o ≡ some register) ⊎ (o ≡ some release))
Running-cases none = inl refl
Running-cases (some register) = inr (inl refl)
Running-cases (some release) = inr (inr refl)

-- The goroutine that works on an entry finishes, if there is one: a registration with whatever
-- result, a release with whatever artifacts and no error.
abbrev pub settle : Bool → Option Endpoint → Option GoError → List Artifact → Entry → Entry
settle native endpoint err artifacts e = elim e.running [
  | none ↦ e
  | some register ↦ finish_register native endpoint err e
  | some release ↦ finish_release artifacts none e
]

finish_release-settled :
    (artifacts : List Artifact) (e : Entry) → (finish_release artifacts none e).running ≡ none
unfolding finish_release
finish_release-settled artifacts e = ground arith

module _ (native : Bool) (endpoint : Option Endpoint) (err : Option GoError)
    (artifacts : List Artifact) where
  settle_release :
      (e : Entry)
      → e.running ≡ some release
      → (settle native endpoint err artifacts e).access.state ≡ released
  settle_release e h = ground (arith, h, finish_release-released artifacts e)

  settle_twice :
      (e : Entry)
      → (e.access.state ≡ releasing)
      → e.running ≢ none
      → (settle native endpoint err artifacts (settle native endpoint err artifacts e)).access.state
        ≡ released
  settle_twice e h busy = elim (Running-cases e.running) [
    | inl idle ↦ absurd (busy idle)
    | inr (inl running) ↦ ground (
      arith,
      running,
      h,
      finish_register-leaving native endpoint err e h,
      settle_release (finish_register native endpoint err e),
    )
    | inr (inr running) ↦
        ground (
          arith,
          running,
          h,
          finish_release-released artifacts e,
          finish_release-settled artifacts e,
        )
  ]

-- A release of an id, in whatever reachable state it comes, ends with the sandbox released once the
-- goroutines at work on its entry have finished: at most two, the registration that may be under
-- way, with whatever result, and a release of the native sandbox that reports no error.
pub release_sandbox-settles :
    (id : Bytes) (s : Server) (native : Bool) (endpoint : Option Endpoint) (err : Option GoError)
    (artifacts : List Artifact)
    → Reachable s
    → is_identifier id ≡ true
    → (e : Entry) × (lookup id (release_sandbox id s).0.entries ≡ some e)
      × ((settle native endpoint err artifacts
            (settle native endpoint err artifacts e)).access.state
          ≡ released)
release_sandbox-settles id s native endpoint err artifacts reached good =
    let t = (release_sandbox id s).0 in
    let (e, found, leaving) = release_sandbox-IsLeaving id s reached good in
    let v = Reachable-Valid id t e (next reached (release_call id)) found in
    (
      e,
      found,
      elim leaving [
        | inl done ↦ ground (arith, done, v)
        | inr (h, busy) ↦
            settle_twice native endpoint err artifacts e h
              (λ idle. absurd (ground (arith, idle, busy, v)))
      ],
    )
