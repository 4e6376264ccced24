-- ===== src/Net/Endpoint.antt =====
-- src/ice/include/ice/net/endpoint.hpp and src/ice/src/ice/net/endpoint.cpp. What the system headers
-- give is a parameter: the sizes and families of the address types, the byte order of a port, and
-- `inet_pton` and `inet_ntop`.
pub mod Laws
use ice_coroutines.Base.{
  ℕ, ◌==◌, Bool, true, false, not, ◌&&◌, ◌||◌, Option, none, some, List, [], ◌∷◌, ◌++◌, Bytes,
  if◌then◌else◌,
}
use ice_coroutines.Error.{
  ErrorCode, no_error, of_errno, Errc, invalid_address, errc_value, domain, Category,
}

-- What `inet_pton` does: it returns 1 and stores an address, or 0, or -1 and sets `errno`.
pub data Pton : Type 0 where
  parsed : Bytes → Pton
  unparsed : Pton
  failed : ℕ → Pton

pub record Platform : Type 0 where
  pub af_inet : ℕ
  pub af_inet6 : ℕ
  pub size_in : ℕ
  pub size_in6 : ℕ
  pub htons : ℕ → ℕ
  pub ntohs : ℕ → ℕ
  pub pton4 : Bytes → Pton
  pub pton6 : Bytes → Pton
  pub ntop4 : Bytes → Option Bytes
  pub ntop6 : Bytes → Option Bytes
  -- The three bytes of memory behind the literal ":" and its null byte.
  pub beyond : Bytes

-- `storage_` and `size_`. The family and the port of `sockaddr_in` and `sockaddr_in6` are the same
-- bytes; the two addresses are not.
pub record Endpoint : Type 0 where
  pub family_field : ℕ
  pub port_field : ℕ
  pub address4 : Bytes
  pub address6 : Bytes
  pub size : ℕ

-- `endpoint()`; the storage is not read while the size is 0.
abbrev pub empty : Endpoint
empty = record { family_field = 0; port_field = 0; address4 = []; address6 = []; size = 0 }

-- `clear()`.
abbrev pub clear : Endpoint → Endpoint
clear e = record e { size = 0 }

-- The host's bytes begin with the needle.
unfoldable pub starts : Bytes → Bytes → Bool
starts [] hay = true
starts (n ∷ needle) [] = false
starts (n ∷ needle) (h ∷ hay) = n == h && starts needle hay

-- `hay.find(needle, 0, length) != npos`.
unfoldable pub contains : Bytes → Bytes → Bool
unfolding starts
contains needle [] = starts needle []
contains needle (h ∷ hay) = starts needle (h ∷ hay) || contains needle hay

module _ (os : Platform) where
  -- `host.find(":", 0, 5)`: the five bytes from the literal on.
  abbrev pub needle : Bytes
  needle = b':' ∷ 0 ∷ os.beyond

  -- The two branches of `create` on the host, up to the result of `inet_pton`.
  unfoldable pub store4 : Endpoint → ℕ → Bytes → Endpoint
  store4 e port addr = record e {
    family_field = os.af_inet;
    port_field = os.htons port;
    size = os.size_in;
    address4 = addr;
  }

  unfoldable pub store6 : Endpoint → ℕ → Bytes → Endpoint
  store6 e port addr = record e {
    family_field = os.af_inet6;
    port_field = os.htons port;
    size = os.size_in6;
    address6 = addr;
  }

  -- `inet_pton` leaves the address as it was unless it returns 1.
  abbrev pub stored : Bytes → Pton → Bytes
  stored old (parsed addr) = addr
  stored old _ = old

  -- The `switch` on what `inet_pton` returned.
  unfoldable pub outcome : Pton → Endpoint → ErrorCode × Endpoint
  outcome (parsed addr) e = (no_error, e)
  outcome (failed errno) e = (of_errno errno, clear e)
  outcome unparsed e =
      (record { value = errc_value invalid_address; category = Category.domain }, clear e)

  -- `endpoint::create`.
  unfoldable pub create : Endpoint → Bytes → ℕ → ErrorCode × Endpoint
  unfolding contains store4 store6 outcome
  create e host port =
      if not (contains needle host)
      then outcome (os.pton4 host) (store4 e port (stored e.address4 (os.pton4 host)))
      else outcome (os.pton6 host) (store6 e port (stored e.address6 (os.pton6 host)))

  -- `endpoint::host`, `port` and `family`, by the size.
  abbrev pub or_empty : Option Bytes → Bytes
  or_empty none = []
  or_empty (some text) = text

  unfoldable pub host : Endpoint → Bytes
  host e =
      if e.size == os.size_in
      then or_empty (os.ntop4 e.address4)
      else if e.size == os.size_in6
      then or_empty (os.ntop6 e.address6)
      else []

  unfoldable pub port_of : Endpoint → ℕ
  port_of e =
      if e.size == os.size_in
      then os.ntohs e.port_field
      else if e.size == os.size_in6
      then os.ntohs e.port_field
      else 0

  unfoldable pub family : Endpoint → ℕ
  family e =
      if e.size == os.size_in then os.af_inet else if e.size == os.size_in6 then os.af_inet6 else 0
