-- ===== src/Net/Socket.antt =====
-- src/ice/src/ice/net/socket.cpp and src/ice/include/ice/net/socket.hpp for POSIX systems. Each call
-- of the system gets a reply: a count, handle or status, or -1 with `errno`.
pub mod Laws
pub mod Windows
use ice_coroutines.Base.{
  ℕ, ◌==◌, not, Option, none, some, List, [], ◌∷◌, Next, goto, ret, if◌then◌else◌,
}
use ice_coroutines.Error.{ErrorCode, no_error, of_errno}
use ice_coroutines.Net.Endpoint.{Endpoint}

pub data Result : Type 0 where
  done failed : ℕ → Result

-- `handle_`, `family_`, and the handles closed so far, latest first.
pub record Socket : Type 0 where
  pub handle : Option ℕ
  pub family : ℕ
  pub closed : List ℕ

-- A handle object that gives up its value closes it.
abbrev pub drop_handle : Option ℕ → List ℕ → List ℕ
drop_handle none closed = closed
drop_handle (some h) closed = h ∷ closed

-- `socket(service&)`.
abbrev pub unopened : Socket
unopened = record { handle = none; family = 0; closed = [] }

-- `create`, from what `::socket` returns.
unfoldable pub create : Result → Socket → ErrorCode × Socket
create (done h) s = (no_error, record s { handle = some h; closed = drop_handle s.handle s.closed })
create (failed e) s = (of_errno e, s)

-- `close`.
unfoldable pub close : Socket → Socket
close s = record s { handle = none; closed = drop_handle s.handle s.closed }

-- The loop of `bind`, at its call. It keeps nothing.
unfoldable pub bind_step : ℕ → Unit {0} → Result → Next (Unit {0}) ErrorCode
bind_step eintr s (done n) = ret no_error
bind_step eintr s (failed e) = if not (e == eintr) then ret (of_errno e) else goto s

-- The loop of `close_type`, at its call of `::close`.
unfoldable pub close_step : ℕ → Unit {0} → Result → Next (Unit {0}) (Unit {0})
close_step eintr s (done n) = ret tt
close_step eintr s (failed e) = if e == eintr then goto s else ret tt

-- The directions of `shutdown`, and the constants of the system for them.
pub data Shutdown : Type 0 where
  recv send both : Shutdown

pub record Directions : Type 0 where
  pub shut_rd : ℕ
  pub shut_wr : ℕ
  pub shut_rdwr : ℕ

unfoldable pub shutdown_value : Directions → Shutdown → ℕ
shutdown_value d recv = d.shut_rd
shutdown_value d send = d.shut_wr
shutdown_value d both = d.shut_rdwr

-- `shutdown`, `get` and `set`, given what the system does for the arguments.
unfoldable pub status : Result → ErrorCode
status (done n) = no_error
status (failed e) = of_errno e

unfoldable pub shutdown : Directions → (ℕ → Result) → Shutdown → ErrorCode
unfolding shutdown_value status
shutdown d call direction = status (call (shutdown_value d direction))

-- `type` and `protocol`: the value that `getsockopt` stores, or 0.
unfoldable pub attribute : Result → ℕ
attribute (done n) = n
attribute (failed e) = 0

-- `name`: the endpoint that `getsockname` stores, or none.
unfoldable pub name : Option Endpoint → Endpoint → Endpoint
name (some e) empty = e
name none empty = empty
