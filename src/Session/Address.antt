-- ===== src/Session/Address.antt =====
-- pkg/bridge/session.go: what the checks on the addresses in `Start` let through.
use aries.Base.{
  ℕ, true, false, [], ◌∷◌, ◌++◌, none, some, ◌==◌, Bytes, codes, bytes_eq, bytes_eq_iff, ok, ◌≡◌,
  ◌≢◌, ◌⊎◌, inl, inr, ◌≤◌, arith, Bool-cases, Option-cases,
}
use aries.Control.State.{ready, Endpoint, Access}
use aries.Sandbox.Checks.{cut_colon}
use aries.Sandbox.Users.{cut_colon_sound}
use aries.Session.Start.{
  Terms, last_colon, bracketed, split_host_port, port_digits, port_number, valid_address,
  native_endpoint,
}

-- A host and a port, with a colon between them, the host in brackets or without a colon of its own.
abbrev pub Joins : Bytes → Bytes → Bytes → Type 0
Joins host port address = (address ≡ host ++ 58 ∷ port) ⊎ (address ≡ 91 ∷ (host ++ 93 ∷ 58 ∷ port))

-- An address with a host and with a port from 1 to 65535.
abbrev pub WellAddressed : Bytes → Type 0
WellAddressed address =
    (host : Bytes) × (port : Bytes) × (n : ℕ) × Joins host port address
    × (host ≢ [])
    × (port_number port ≡ some n)
    × (1 ≤ n)
    × (n ≤ 65535)

last_colon_sound : (s a b : Bytes) → last_colon s ≡ some (a, b) → s ≡ a ++ 58 ∷ b
unfolding last_colon
last_colon_sound [] a b h = cc
last_colon_sound (c ∷ s) a b h = elim (Option-cases (last_colon s)) [
  | inr ((x, y), there) ↦ let rest = last_colon_sound s x y there in ground (arith, there, h, rest)
  | inl never ↦ elim (Bool-cases (c == 58)) [
    | inl colon ↦ ground (arith, never, colon, h)
    | inr other ↦ absurd (ground (arith, never, other, h))
  ]
]

bracketed_sound : (s a b : Bytes) → bracketed s ≡ some (a, b) → s ≡ a ++ 93 ∷ 58 ∷ b
unfolding bracketed
bracketed_sound [] a b h = cc
bracketed_sound (c ∷ s) a b h = elim (Bool-cases (c == 93)) [
  | inl closes ↦ elim (Option-cases (cut_colon s)) [
    | inl never ↦ absurd (ground (arith, closes, never, h))
    | inr ((x, y), there) ↦
        let first = cut_colon_sound s x y there in
        let none_before : x ≡ [] = ground (arith, closes, there, h) in
        let same : (a ≡ []) × (b ≡ y) =
          (ground (arith, closes, there, h), ground (arith, closes, there, h)) in
        ground (arith, closes, first, none_before, same)
  ]
  | inr inside ↦ elim (Option-cases (bracketed s)) [
    | inl never ↦ absurd (ground (arith, inside, never, h))
    | inr ((x, y), there) ↦
        let rest = bracketed_sound s x y there in ground (arith, inside, there, h, rest)
  ]
]

split_host_port-Joins :
    (s host port : Bytes) → split_host_port s ≡ some (host, port) → Joins host port s
split_host_port-Joins [] host port h = unfold split_host_port in cc
split_host_port-Joins (c ∷ s) host port h = elim (Bool-cases (c == 91)) [
  | inl bracket ↦
      let rest =
        bracketed_sound s host port (unfold split_host_port in ground (arith, bracket, h)) in
      inr (ground (arith, bracket, rest))
  | inr plain ↦ elim (Option-cases (last_colon (c ∷ s))) [
    | inl never ↦ absurd (unfold split_host_port in ground (arith, plain, never, h))
    | inr ((x, y), there) ↦
        let rest = last_colon_sound (c ∷ s) x y there in
        inl (unfold split_host_port in ground (arith, plain, there, h, rest))
  ]
]

port_digits-bounds : (s : Bytes) (n : ℕ) → port_digits s ≡ some n → (1 ≤ n) × (n ≤ 65535)
unfolding port_digits
port_digits-bounds [] n h = (cc, cc)
port_digits-bounds (c ∷ s) n h = (ground (arith, h), ground (arith, h))

port_number-bounds : (s : Bytes) (n : ℕ) → port_number s ≡ some n → (1 ≤ n) × (n ≤ 65535)
port_number-bounds [] n h = (unfold port_number in cc, unfold port_number in cc)
port_number-bounds (c ∷ s) n h = elim (Bool-cases (c == 43)) [
  | inl signed ↦ port_digits-bounds s n (unfold port_number in ground (arith, signed, h))
  | inr digits ↦ port_digits-bounds (c ∷ s) n (unfold port_number in ground (arith, digits, h))
]

pub valid_address-WellAddressed :
    (address : Bytes) → valid_address address ≡ none → WellAddressed address
valid_address-WellAddressed address h = elim (Option-cases (split_host_port address)) [
  | inl never ↦ absurd (unfold valid_address in ground (arith, never, h))
  | inr ((host, port), there) ↦ elim (Option-cases (port_number port)) [
    | inl no_port ↦ absurd (unfold valid_address in ground (arith, there, no_port, h))
    | inr (n, numbered) ↦
        let (low, high) = port_number-bounds port n numbered in
        let some_host : bytes_eq host [] ≡ false =
          unfold valid_address in ground (arith, there, numbered, h) in
        (
          host,
          port,
          n,
          split_host_port-Joins address host port there,
          (λ empty. ground (arith, some_host, (bytes_eq_iff host []).1 empty)),
          numbered,
          low,
          high,
        )
  ]
]

-- An access that is ready, with a native endpoint of the transport and of aries, on a port.
abbrev pub ReadyAt : Bytes → Access → Endpoint → Type 0
ReadyAt transport a native =
    (a.state ≡ ready)
    × (a.endpoint ≡ some native)
    × (native.transport ≡ transport)
    × (native.user ≡ codes "aries")
    × (1 ≤ native.port)
    × (native.port ≤ 65535)

native_endpoint-state :
    (t : Terms) (a : Access) (native : Endpoint)
    → native_endpoint t a ≡ ok native
    → (a.state ≡ ready) × (a.endpoint ≡ some native)
unfolding native_endpoint
native_endpoint-state t a native h = (ground (arith, h), ground (arith, h))

pub native_endpoint-ReadyAt :
    (t : Terms) (a : Access) (native : Endpoint)
    → native_endpoint t a ≡ ok native
    → ReadyAt t.transport a native
native_endpoint-ReadyAt t a native h =
    let (is_ready, there) = native_endpoint-state t a native h in
    let transport : bytes_eq native.transport t.transport ≡ true =
      unfold native_endpoint in ground (arith, is_ready, there, h) in
    let user : bytes_eq native.user (codes "aries") ≡ true =
      unfold native_endpoint in ground (arith, is_ready, there, h) in
    (
      is_ready,
      there,
      (bytes_eq_iff native.transport t.transport).0 transport,
      (bytes_eq_iff native.user (codes "aries")).0 user,
      unfold native_endpoint in ground (arith, is_ready, there, h),
      unfold native_endpoint in ground (arith, is_ready, there, h),
    )
