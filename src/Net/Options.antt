-- ===== src/Net/Options.antt =====
-- src/ice/include/ice/net/option.hpp and src/ice/src/ice/net/option.cpp, for systems other than
-- Windows, and the `get` and `set` of src/ice/include/ice/net/socket.hpp that take an option. The
-- constants of the system headers are a parameter; `int` has 32 bits.
pub mod Laws
pub mod Socket
use ice_coroutines.Base.{
  ℕ, ◌+◌, ◌-◌, ◌%◌, ◌^◌, ◌==◌, ltb, ℤ, pos, negsuc, Bool, true, false, Option, none, some,
  if◌then◌else◌,
}
use ice_coroutines.Error.{ErrorCode, no_error, of_errno}

pub record Constants : Type 0 where
  pub sol_socket : ℕ
  pub so_broadcast : ℕ
  pub so_dontroute : ℕ
  pub so_keepalive : ℕ
  pub so_linger : ℕ
  pub tcp_nodelay : ℕ
  pub so_rcvbuf : ℕ
  pub so_sndbuf : ℕ
  pub so_rcvlowat : ℕ
  pub so_sndlowat : ℕ
  pub so_reuseaddr : ℕ

-- The classes that derive from `option`.
pub data Kind : Type 0 where
  broadcast do_not_route keep_alive linger no_delay recv_buffer_size send_buffer_size : Kind
  recv_low_watermark send_low_watermark reuse_address : Kind

-- `level()`: `option::level`, and the override of `no_delay`.
unfoldable pub level : Constants → Kind → ℕ
level c no_delay = c.sol_socket
level c _ = c.sol_socket

-- `name()`.
unfoldable pub name : Constants → Kind → ℕ
name c broadcast = c.so_broadcast
name c do_not_route = c.so_dontroute
name c keep_alive = c.so_keepalive
name c linger = c.so_linger
name c no_delay = c.tcp_nodelay
name c recv_buffer_size = c.so_rcvbuf
name c send_buffer_size = c.so_sndbuf
name c recv_low_watermark = c.so_rcvlowat
name c send_low_watermark = c.so_sndlowat
name c reuse_address = c.so_reuseaddr

-- `std::numeric_limits<int>::max()`, and `sizeof(int)`.
abbrev pub int_max : ℕ
int_max = 2147483647

abbrev pub int_size : ℕ
int_size = 4

-- `static_cast<int>` of a wider integer.
unfoldable pub to_int : ℤ → ℤ
to_int (pos n) = let m = n % 2 ^ 32 in if ltb int_max m then negsuc (2 ^ 32 - m - 1) else pos m
to_int (negsuc n) = let m = n % 2 ^ 32 in if ltb int_max m then pos (2 ^ 32 - m - 1) else negsuc m

-- `option_value<bool>` and `option_value<std::size_t>`: the `int`, and `size_`.
pub record OptionValue : Type 0 where
  pub value : ℤ
  pub size : ℕ

unfoldable pub option_value_bool : Bool → OptionValue
option_value_bool b = record { value = if b then pos 1 else pos 0; size = int_size }

unfoldable pub get_bool : OptionValue → Bool
get_bool o = elim o.value [ pos n ↦ if n == 0 then false else true | negsuc n ↦ true ]

unfoldable pub option_value_size : ℕ → OptionValue
unfolding to_int
option_value_size n = record {
  value = if ltb int_max n then pos int_max else to_int (pos n);
  size = int_size;
}

unfoldable pub get_size : OptionValue → ℕ
get_size o = elim o.value [ pos n ↦ n | negsuc n ↦ 0 ]

-- `option::linger`: the two fields of `::linger`, and `size_`.
pub record Linger : Type 0 where
  pub l_onoff : ℕ
  pub l_linger : ℤ
  pub size : ℕ

-- The constructor's two tests against the limits of `int`, and the assignment behind them.
unfoldable pub clamp_low : ℤ → ℤ → ℤ
clamp_low (pos n) old = old
clamp_low (negsuc n) old = if ltb int_max n then pos 0 else old

unfoldable pub clamp_high : ℤ → ℤ → ℤ
clamp_high (pos n) old = if ltb int_max n then pos int_max else old
clamp_high (negsuc n) old = old

unfoldable pub assign : ℤ → ℤ → ℤ
unfolding to_int
assign count old = to_int count

unfoldable pub make_linger : Option ℤ → Linger
unfolding clamp_low clamp_high assign
make_linger none = record { l_onoff = 0; l_linger = pos 0; size = 0 }
make_linger (some count) = record {
  l_onoff = 1;
  l_linger = assign count (clamp_high count (clamp_low count (pos 0)));
  size = 0;
}

unfoldable pub get_linger : Linger → Option ℤ
get_linger o = if o.l_onoff == 0 then none else some o.l_linger
