-- ===== src/Net/Endpoint/Laws.antt =====
-- What `create` leaves, by the host that it is given.
use ice_coroutines.Base.{
  ℕ, ◌<◌, ◌^◌, Bool, true, false, not, [], ◌∷◌, Bytes, if◌then◌else◌, ◌≡◌, ◌≢◌, refl, arith, All,
}
use ice_coroutines.Error.{ErrorCode, no_error, is_error}
use ice_coroutines.Net.Endpoint.{
  Pton, parsed, unparsed, failed, Platform, Endpoint, starts, contains, needle, store4, stored,
  outcome, create, or_empty, host, port_of, family,
}

-- What the code relies on in the system headers.
pub record IsPosix (os : Platform) : Type 0 where
  pub in_nonzero : os.size_in ≢ 0
  pub in6_nonzero : os.size_in6 ≢ 0
  pub ports : (p : ℕ) → p < 2 ^ 16 → os.ntohs (os.htons p) ≡ p

-- No null byte in a text.
abbrev pub NoNul : Bytes → Type 0
NoNul = All (λ c. c ≢ 0)

if-either {ℓ} :
    {A : Type 0} (P : A → Type ℓ) (b : Bool) {x y : A} → P x → P y → P (if b then x else y)
if-either P true px py = px
if-either P false px py = py

module _ (os : Platform) where
  starts-NoNul : (h : ℕ) (text : Bytes) → NoNul text → starts (needle os) (h ∷ text) ≡ false
  unfolding starts
  starts-NoNul h [] n = ground arith
  starts-NoNul h (c ∷ text) n = ground arith

  contains-NoNul : (text : Bytes) → NoNul text → contains (needle os) text ≡ false
  unfolding contains
  contains-NoNul [] n = refl
  contains-NoNul (c ∷ text) n = ground (arith, starts-NoNul c text n.1, contains-NoNul text n.1)

  -- The search for a colon asks for five bytes from a literal of two, so it looks for ":\0" and
  -- more: a host with no null byte, an IPv6 address too, is always read as an IPv4 address.
  pub create-NoNul :
      (e : Endpoint) (text : Bytes) (port : ℕ)
      → NoNul text
      → create os e text port
        ≡ outcome os (os.pton4 text) (store4 os e port (stored os e.address4 (os.pton4 text)))
  unfolding create
  create-NoNul e text port n = rw (contains-NoNul text n) refl

  -- For a host with no null byte that `inet_pton` reads as an IPv4 address, and a 16-bit port,
  -- `create` returns no error, and the port, the family and the host of the endpoint are the port
  -- given, `AF_INET` and the text that `inet_ntop` makes of the address.
  pub create-parsed :
      IsPosix os
      → (e : Endpoint) (text addr : Bytes) (port : ℕ) → NoNul text
      → port < 2 ^ 16
      → os.pton4 text ≡ parsed addr
      → let r = create os e text port in
        (r.0 ≡ no_error)
        × (port_of os r.1 ≡ port)
        × (family os r.1 ≡ os.af_inet)
        × (host os r.1 ≡ or_empty os (os.ntop4 addr))
  unfolding store4 outcome host port_of family
  create-parsed posix e text addr port n small given =
      rw (create-NoNul e text port n, given)
        (refl, ground (arith, posix.ports port small), ground arith, ground arith)

  -- With an error, an endpoint that is empty to its reader.
  abbrev Emptied : ErrorCode × Endpoint → Type 0
  Emptied r = is_error r.0 ≡ true → (host os r.1 ≡ []) × (port_of os r.1 ≡ 0) × (family os r.1 ≡ 0)

  outcome-is_error : IsPosix os → (p : Pton) (e : Endpoint) → Emptied (outcome os p e)
  unfolding outcome host port_of family
  outcome-is_error posix (parsed addr) e failing = ground arith
  outcome-is_error posix unparsed e failing = (
    ground (arith, posix.in_nonzero, posix.in6_nonzero),
    ground (arith, posix.in_nonzero, posix.in6_nonzero),
    ground (arith, posix.in_nonzero, posix.in6_nonzero),
  )
  outcome-is_error posix (failed n) e failing = (
    ground (arith, posix.in_nonzero, posix.in6_nonzero),
    ground (arith, posix.in_nonzero, posix.in6_nonzero),
    ground (arith, posix.in_nonzero, posix.in6_nonzero),
  )

  -- Where `create` returns an error, the endpoint is empty, whatever it was before and whatever the
  -- host is: its host is the empty text, and its port and its family are 0.
  pub create-is_error :
      IsPosix os
      → (e : Endpoint) (text : Bytes) (port : ℕ) → is_error (create os e text port).0 ≡ true
      → let e' = (create os e text port).1 in
        (host os e' ≡ []) × (port_of os e' ≡ 0) × (family os e' ≡ 0)
  unfolding create
  create-is_error posix e text port failing =
      if-either Emptied (not (contains (needle os) text)) (outcome-is_error posix (os.pton4 text) _)
        (outcome-is_error posix (os.pton6 text) _) failing
