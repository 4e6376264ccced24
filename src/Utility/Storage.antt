-- ===== src/Utility/Storage.antt =====
-- The constructor of `thread_local_storage` in src/ice/src/ice/utility.cpp, with its handle type of
-- src/ice/include/ice/utility.hpp and the handles that `get` and `lock` give to the system. `none` is a
-- call of the system that fails. The asserts are not in force.
use ice_coroutines.Base.{
  ℕ, ◌-◌, ◌^◌, ◌<◌, ℤ, pos, negsuc, Bool, true, false, Option, none, some, ◌≡◌, ◌≢◌, ◌↔◌, arith,
}
use ice_coroutines.Handle
use ice_coroutines.Handle.Cast.{
  Integer, int32, uint32, uint64, invalid_value, from_value, as_value, bits,
}

-- `TlsAlloc` returns `TLS_OUT_OF_INDEXES` where it fails.
abbrev pub tls_out_of_indexes : ℕ
tls_out_of_indexes = 2 ^ 32 - 1

unfoldable pub windows_storage : Option ℕ → ℤ
unfolding from_value
windows_storage (some index) = from_value uint64 (pos index)
windows_storage none = from_value uint64 (pos tls_out_of_indexes)

-- `pthread_key_create` writes the key, of type `pthread_key_t`, where it succeeds.
unfoldable pub posix_storage : Integer → Option ℕ → ℤ
unfolding from_value invalid_value
posix_storage key (some k) = from_value uint64 (pos k)
posix_storage key none = from_value uint64 (invalid_value key (negsuc 0))

-- The test of `handle_` at the end, with the invalid values 0 and -1.
unfoldable pub windows_valid : ℤ → Bool
unfolding invalid_value
windows_valid v = Handle.valid (invalid_value uint64 (pos 0)) v

unfoldable pub posix_valid : ℤ → Bool
unfolding invalid_value
posix_valid v = Handle.valid (invalid_value uint64 (negsuc 0)) v

-- A key below 2 ^ 31 comes back to the system as it was made, on POSIX systems in a valid handle, on
-- Windows in one that is valid exactly if the index is not 0. A call that fails leaves a handle that is
-- valid on Windows, and on a POSIX system where keys are unsigned; where they are `int` it is not.
pub storage_lem :
    (key : Integer) (k : ℕ)
    → bits key ≡ 32
    → k < 2 ^ 31
    → (as_value key (posix_storage key (some k)) ≡ pos k)
      × (posix_valid (posix_storage key (some k)) ≡ true)
      × (as_value uint32 (windows_storage (some k)) ≡ pos k)
      × ((windows_valid (windows_storage (some k)) ≡ true) ↔ (k ≢ 0))
      × (windows_valid (windows_storage none) ≡ true)
      × (posix_valid (posix_storage uint32 none) ≡ true)
      × (posix_valid (posix_storage int32 none) ≡ false)
unfolding as_value posix_storage windows_storage posix_valid windows_valid
storage_lem key k w r = ground arith
