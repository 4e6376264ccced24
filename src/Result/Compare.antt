-- ===== src/Result/Compare.antt =====
-- The comparison operators of result.hpp. `eqb` and `neb` are `==` and `!=` of the two value types.
use ice_coroutines.Base.{
  Bool, true, false, not, Option, some, if◌then◌else◌, ◌≡◌, arith, ◌⊎◌, inl, inr, ◌>>=◌, ◌↔◌,
}
use mathlib.Core.Option
use ice_coroutines.Error.{ErrorCode, same_code, same_code_iff}
use ice_coroutines.Result.Storage.{Storage}
use ice_coroutines.Result.Access.{deref, error_of, of_sum}

-- `a != b` on two flags.
abbrev unlike : Bool → Bool → Bool
unlike true b = not b
unlike false b = b

module _ {A B : Type 0} where
  -- `result<T> == result<U>`.
  unfoldable pub same : (A → B → Bool) → Storage A → Storage B → Option Bool
  unfolding deref error_of
  same eqb l r =
      if unlike l.has_value r.has_value
      then some false
      else if not l.has_value
      then (do
        d ← error_of l.has_value l.member
        e ← error_of r.has_value r.member
        some (same_code d e))
      else (do a ← deref l.has_value l.member; b ← deref r.has_value r.member; some (eqb a b))

  -- `result<T> != result<U>`.
  unfoldable pub differ : (A → B → Bool) → Storage A → Storage B → Option Bool
  unfolding deref error_of
  differ neb l r =
      if unlike l.has_value r.has_value
      then some true
      else if not l.has_value
      then (do
        d ← error_of l.has_value l.member
        e ← error_of r.has_value r.member
        some (not (same_code d e)))
      else (do a ← deref l.has_value l.member; b ← deref r.has_value r.member; some (neb a b))

  -- `result<T> == U`, in both orders of the operands.
  unfoldable pub same_value : (A → B → Bool) → Storage A → B → Option Bool
  unfolding deref
  same_value eqb r b =
      if r.has_value then (do a ← deref r.has_value r.member; some (eqb a b)) else some false

  -- `result<T> != U`, in both orders of the operands.
  unfoldable pub differ_value : (A → B → Bool) → Storage A → B → Option Bool
  unfolding deref
  differ_value neb r b =
      if r.has_value then (do a ← deref r.has_value r.member; some (neb a b)) else some true

module _ {A : Type 0} where
  -- `result<T> == std::error_code`, in both orders of the operands.
  unfoldable pub same_error : Storage A → ErrorCode → Option Bool
  unfolding error_of
  same_error r e =
      if r.has_value
      then some false
      else (do d ← error_of r.has_value r.member; some (same_code d e))

  module _ (eqb : A → A → Bool) (eqb_iff : (a b : A) → (eqb a b ≡ true) ↔ (a ≡ b)) where
    -- Where `==` of the value type is equality, the three forms of `==` decide whether the results,
    -- values and errors that the operands stand for are equal.
    same_iff :
        (x y : A ⊎ ErrorCode)
        → ((same eqb (of_sum x) (of_sum y) ≡ some true) ↔ (x ≡ y))
          × ((b : A) → (same_value eqb (of_sum x) b ≡ some true) ↔ (x ≡ inl b))
          × ((e : ErrorCode) → (same_error (of_sum x) e ≡ some true) ↔ (x ≡ inr e))
    unfolding same same_value same_error
    same_iff (inl a) (inl b) =
        (ground (arith, eqb_iff a b), λ c. ground (arith, eqb_iff a c), λ e. ground arith)
    same_iff (inl a) (inr e) = (ground arith, λ c. ground (arith, eqb_iff a c), λ e. ground arith)
    same_iff (inr d) (inl b) =
        (ground arith, λ c. ground arith, λ e. ground (arith, same_code_iff d e))
    same_iff (inr d) (inr e) = (
      ground (arith, same_code_iff d e),
      λ c. ground arith,
      λ f. ground (arith, same_code_iff d f),
    )

module _ {A B : Type 0} (eqb neb : A → B → Bool)
    (opposite : (a : A) (b : B) → neb a b ≡ not (eqb a b)) where
  -- `!=` is the negation of `==`, on any two operands on which these are defined.
  pub differ-same :
      (l : Storage A) (r : Storage B)
      → (differ neb l r ≡ Option.map not (same eqb l r))
        × ((b : B) → differ_value neb l b ≡ Option.map not (same_value eqb l b))
  unfolding same differ same_value differ_value
  differ-same l r = (grind (arith, opposite), λ b. grind (arith, opposite))
