-- ===== src/Result/Access.antt =====
-- The accessors of `result<T>`, and `result<void>`.
use ice_coroutines.Base.{
  Bool, true, false, Option, none, some, if◌then◌else◌, ◌≡◌, refl, arith, ◌⊎◌, inl, inr,
}
use ice_coroutines.Error.{ErrorCode, no_error}
use ice_coroutines.Result.Storage.{
  Member, value, error, raw, Storage, Agrees, IsLive, from_value, from_error,
}

-- What a call of `value()` does: it returns, throws `std::system_error` with a code, or reads a
-- member that is not active.
pub data Access (A : Type 0) : Type 0 where
  got : A → Access A
  thrown : ErrorCode → Access A
  undefined : Access A

module _ {A : Type 0} where
  read_value : Member A → Access A
  read_value (value a) = got a
  read_value _ = undefined

  throw_error : Member A → Access A
  throw_error (error e) = thrown e
  throw_error _ = undefined

  -- `value()`.
  unfoldable pub value_of : Storage A → Access A
  unfolding read_value throw_error
  value_of r = if r.has_value then read_value r.member else throw_error r.member

  -- `operator*`, with its assertion.
  unfoldable pub deref : Bool → Member A → Option A
  deref true (value a) = some a
  deref _ _ = none

  -- `error()`.
  unfoldable pub error_of : Bool → Member A → Option ErrorCode
  error_of true m = some no_error
  error_of false (error e) = some e
  error_of false _ = none

  -- A result that stands for a value or an error.
  abbrev pub of_sum : A ⊎ ErrorCode → Storage A
  of_sum (inl a) = from_value a
  of_sum (inr e) = from_error e

  -- Every live result is one of these.
  pub IsLive-of_sum : (r : Storage A) → IsLive r → (x : A ⊎ ErrorCode) × (r ≡ of_sum x)
  IsLive-of_sum r h = go r.has_value r.member refl refl h
    where
      go :
          (b : Bool) (m : Member A)
          → r.has_value ≡ b
          → r.member ≡ m
          → Agrees b m
          → (x : A ⊎ ErrorCode) × (r ≡ of_sum x)
      go true (value a) p q k = (inl a, ground arith)
      go false (error e) p q k = (inr e, ground arith)
      go true (error e) p q k = elim k [ ]
      go true raw p q k = elim k [ ]
      go false (value a) p q k = elim k [ ]
      go false raw p q k = elim k [ ]

-- `result<void>`.
pub record VoidResult : Type 0 where
  pub has_value : Bool
  pub error : ErrorCode

-- `result()`: `has_value_` is initialised to `true`.
abbrev pub void_ok : VoidResult
void_ok = record { has_value = true; error = no_error }

-- `result(error_type error) : error_(error)`: the other member keeps its initialiser.
unfoldable pub void_error : ErrorCode → VoidResult
void_error e = record void_ok { error = e }

-- `value()` of `result<void>`.
unfoldable pub void_value : VoidResult → Access (Unit {0})
void_value r = if r.has_value then got tt else thrown r.error

-- `value()` throws the error that a `result<T>` was made from. A `result<void>` made from the same
-- error says that it has a value, and its `value()` returns, although `error()` is that error.
pub value-error :
    {A : Type 0} (e : ErrorCode)
    → (value_of (from_error {A = A} e) ≡ thrown e)
      × ((void_error e).has_value ≡ true)
      × (void_value (void_error e) ≡ got tt)
      × ((void_error e).error ≡ e)
unfolding value_of void_error void_value
value-error e = (refl, refl, refl, refl)
