-- ===== src/Net/Options/Laws.antt =====
-- What the options keep of the values that they are made from.
use ice_coroutines.Base.{
  ℕ, ◌-◌, ◌^◌, ◌≤◌, ◌<◌, ltb, pos, negsuc, Bool, none, some, if◌then◌else◌, ◌≡◌, refl, arith,
}
use ice_coroutines.Net.Options.{
  int_max, to_int, option_value_bool, get_bool, option_value_size, get_size, assign, make_linger,
  get_linger,
}

-- The smaller of a size and the largest `int`.
abbrev pub saturated : ℕ → ℕ
saturated n = if ltb int_max n then int_max else n

-- An option made from a flag gives the flag back, and one made from a size gives the size back, cut
-- to the largest `int`.
get-option_value :
    (b : Bool) (n : ℕ)
    → (get_bool (option_value_bool b) ≡ b) × (get_size (option_value_size n) ≡ saturated n)
unfolding get_bool option_value_bool get_size option_value_size to_int
get-option_value b n = (ground arith, ground arith)

to_int-small : (n : ℕ) → n ≤ int_max → to_int (pos n) ≡ pos n
unfolding to_int
to_int-small n small = ground arith

-- A linger option gives its timeout back if that is not negative and fits an `int`, and without a
-- timeout it gives none.
pub get-make_linger :
    (n : ℕ)
    → n ≤ int_max
    → (get_linger (make_linger (some (pos n))) ≡ some (pos n))
      × (get_linger (make_linger none) ≡ none)
unfolding get_linger make_linger assign
get-make_linger n small = (ground (arith, to_int-small n small), refl)

-- A timeout above the largest `int` is not cut to it: from 2 ^ 31 up to 2 ^ 32 - 1 seconds the
-- option holds a negative time. The size of the option is 0 all the same.
pub make_linger-wraps :
    (n : ℕ)
    → int_max < n
    → n < 2 ^ 32
    → (get_linger (make_linger (some (pos n))) ≡ some (negsuc (2 ^ 32 - n - 1)))
      × ((make_linger (some (pos n))).size ≡ 0)
unfolding get_linger make_linger assign to_int
make_linger-wraps n large small = (ground arith, refl)
