-- ===== src/Error.antt =====
-- src/ice/include/ice/error.hpp, and the category `domain` of src/ice/src/ice/error.cpp.
-- An `std::error_code` is its value and its category.
pub mod Table
pub mod System
pub mod Native
pub mod Throw
mod Tests
use ice_coroutines.Base.{
  ℕ, ℤ, pos, negsuc, ◌==◌, ==_iff, eqb_ℤ, eqb_ℤ_iff, Bool, true, false, not, ◌&&◌, String,
  if◌then◌else◌, ◌≡◌, ◌↔◌, refl, sym, ap, ◌∙◌, arith,
}
use System.{StdErrc}

-- The category objects: `std::system_category`, which a default error code has, the three of
-- error.cpp, and the one of src/ssh/src/ice/net/ssh/error.cpp.
pub data Category : Type 0 where
  std_system native system domain ssh : Category

pub record ErrorCode : Type 0 where
  pub value : ℤ
  pub category : Category

-- `std::error_code{}`.
abbrev pub no_error : ErrorCode
no_error = record { value = pos 0; category = std_system }

-- `error_code::operator bool`.
abbrev pub is_error : ErrorCode → Bool
is_error ec = not (eqb_ℤ ec.value (pos 0))

abbrev category_index : Category → ℕ
category_index std_system = 0
category_index native = 1
category_index system = 2
category_index domain = 3
category_index ssh = 4

-- `operator==` on error codes: the value, and the address of the category.
abbrev pub same_code : ErrorCode → ErrorCode → Bool
same_code a b = category_index a.category == category_index b.category && eqb_ℤ a.value b.value

pub same_code_iff : (a b : ErrorCode) → (same_code a b ≡ true) ↔ (a ≡ b)
same_code_iff a b = ground (arith, eqb_ℤ_iff a.value b.value)

-- `ice::errc`.
pub data Errc : Type 0 where
  eof invalid_address version_mismatch : Errc

abbrev pub errc_value : Errc → ℤ
errc_value eof = pos 1
errc_value invalid_address = pos 2
errc_value version_mismatch = pos 3

-- The argument types that `make_error_code` tells apart; `raw` is any other, cast to `int`.
pub data ErrorValue : Type 0 where
  of_std : StdErrc → ErrorValue
  of_errc : Errc → ErrorValue
  of_code : ErrorCode → ErrorValue
  of_raw : ℤ → ErrorValue

-- The one-argument `make_error_code`, given the platform's values of `std::errc`.
unfoldable pub make_error_code : (StdErrc → ℤ) → ErrorValue → ErrorCode
make_error_code std (of_std e) = record { value = std e; category = system }
make_error_code std (of_errc e) = record { value = errc_value e; category = domain }
make_error_code std (of_code ec) = ec
make_error_code std (of_raw n) = record { value = n; category = native }

-- `make_error_code(errno)`: every error number of the operating system is native.
abbrev pub of_errno : ℕ → ErrorCode
of_errno n = record { value = pos n; category = native }

-- The two-argument `make_error_code`.
abbrev pub make_error_code_in : ℤ → Category → ErrorCode
make_error_code_in n category = record { value = n; category = category }

-- `domain_category::message`.
unfoldable pub domain_message : ℤ → String
domain_message ev =
    if eqb_ℤ ev (errc_value eof)
    then "end of file"
    else if eqb_ℤ ev (errc_value invalid_address)
    then "invalid address"
    else if eqb_ℤ ev (errc_value version_mismatch)
    then "version mismatch"
    else "unknown error"
