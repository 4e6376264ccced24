-- ===== src/Handle/Cast.antt =====
-- The conversions of `handle_view` in src/ice/include/ice/handle.hpp between integer types, and
-- between those and pointers, which are taken for integers of 64 bits.
use ice_coroutines.Base.{ℕ, ◌-◌, ◌%◌, ◌^◌, ◌≤◌, ◌<◌, ltb, ℤ, pos, negsuc, ◌≡◌, arith, if◌then◌else◌}

-- `int`, `unsigned int` (also `DWORD`) and `std::uintptr_t`.
pub data Integer : Type 0 where
  int32 uint32 uint64 : Integer

-- The number that the pattern of 32 bits of an `int` stands for.
abbrev pub signed32 : ℕ → ℤ
signed32 w = if ltb w (2 ^ 31) then pos w else negsuc (2 ^ 32 - w - 1)

-- `static_cast<T>(value)`: the number of the type that differs from the value by a multiple of 2 ^ w.
unfoldable pub static_cast : Integer → ℤ → ℤ
static_cast int32 (pos n) = signed32 (n % 2 ^ 32)
static_cast int32 (negsuc n) = signed32 (2 ^ 32 - 1 - n % 2 ^ 32)
static_cast uint32 (pos n) = pos (n % 2 ^ 32)
static_cast uint32 (negsuc n) = pos (2 ^ 32 - 1 - n % 2 ^ 32)
static_cast uint64 (pos n) = pos (n % 2 ^ 64)
static_cast uint64 (negsuc n) = pos (2 ^ 64 - 1 - n % 2 ^ 64)

-- `invalid_value()` of `handle_view<T, I>`.
unfoldable pub invalid_value : Integer → ℤ → ℤ
unfolding static_cast
invalid_value t i = static_cast t i

-- `handle_view(V value)`, and what `reset(V value)` stores.
unfoldable pub from_value : Integer → ℤ → ℤ
unfolding static_cast
from_value t v = static_cast t v

-- `as<V>()`.
unfoldable pub as_value : Integer → ℤ → ℤ
unfolding static_cast
as_value v x = static_cast v x

-- The numbers of a type.
abbrev pub InRange : Integer → ℤ → Type 0
InRange int32 (pos n) = n < 2 ^ 31
InRange int32 (negsuc n) = n < 2 ^ 31
InRange uint32 (pos n) = n < 2 ^ 32
InRange uint32 (negsuc n) = ⊥
InRange uint64 (pos n) = n < 2 ^ 64
InRange uint64 (negsuc n) = ⊥

abbrev pub bits : Integer → ℕ
bits int32 = 32
bits uint32 = 32
bits uint64 = 64

-- Whatever is stored is a number of the type of the handle.
pub from_value-InRange : (t : Integer) (x : ℤ) → InRange t (from_value t x)
unfolding from_value
from_value-InRange t x = ground arith

-- A number of a type that is no wider than that of the handle comes back as it was stored, signed ones in
-- an unsigned handle too.
pub as-from_value :
    (v t : Integer) (x : ℤ) → bits v ≤ bits t → InRange v x → as_value v (from_value t x) ≡ x
unfolding as_value from_value
as-from_value v t x w r = ground arith
