-- ===== src/Session/Opened.antt =====
-- pkg/bridge/session.go: what a Start of a session returns, and what it owns then.
use aries.Base.{ℕ, true, some, Bytes, codes, Result, ok, err, ◌≡◌, ◌⊎◌, ◌≤◌}
use aries.Core.Errors.{GoError}
use aries.Control.State.{Endpoint, Access}
use aries.Session.Admitted.{Watch}
use aries.Session.Address.{WellAddressed, ReadyAt}
use aries.Session.Start.{Terms, Opener, SessionEndpoint, Opening, Opened}

-- The calls before the registration send none, and give back no time.
pub record Unsent {W : Type 0} (opener : Opener W) (sent left : W → ℕ) : Type 0 where
  pub export_sent : (w : W) → sent (opener.export_target w).0 ≡ sent w
  pub export_left : (w : W) → left (opener.export_target w).0 ≤ left w
  pub make_dir_sent : (dir : Bytes) (w : W) → sent (opener.make_dir dir w).0 ≡ sent w
  pub make_dir_left : (dir : Bytes) (w : W) → left (opener.make_dir dir w).0 ≤ left w
  pub record_sent : (w : W) → sent (opener.record_session w).0 ≡ sent w
  pub record_left : (w : W) → left (opener.record_session w).0 ≤ left w

module _ {W : Type 0} (opener : Opener W) (t : Terms) (sent missing left : W → ℕ)
    (watch : Watch opener.client sent missing left) (unsent : Unsent opener sent left) where
  -- The address is the deployment's for the port of a native endpoint that a ready access holds.
  abbrev pub Resolved : Bytes → Type 0
  Resolved address =
      (a : Access) × (native : Endpoint) × (w : W) × ReadyAt t.transport a native
      × ((opener.task_address native.port w).1 ≡ ok address)

  -- A session that has an endpoint is registered and exposed, and the endpoint is the service's own
  -- with a host and a port, which the deployment gave for a native port. Without one it is exposed no more than before, and a registration that was
  -- sent since `w` is owned.
  abbrev pub IsOpened : Opening → W → Opening × W × Result GoError SessionEndpoint → Type 0
  IsOpened o w (o', w', ok endpoint) =
      (o'.session.registered ≡ true)
      × (o'.session.exposed ≡ true)
      × (endpoint.protocol ≡ t.transport)
      × (endpoint.username ≡ codes "aries")
      × WellAddressed endpoint.address
      × Resolved endpoint.address
  IsOpened o w (o', w', err e) =
      (o'.session.exposed ≡ o.session.exposed)
      × ((o'.session.registered ≡ true) ⊎ (sent w' ≡ sent w))

  abbrev pub OpensIn : Opening → W → Opened W → Type 0
  OpensIn o w result =
      (outcome : Opening × W × Result GoError SessionEndpoint) × (result ≡ some outcome)
      × IsOpened o w outcome
