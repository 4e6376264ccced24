-- ===== src/Handle.antt =====
-- src/ice/include/ice/handle.hpp: `handle_view` and the owning `handle`, for the integral types that
-- the library uses. The objects of one handle type stand in a list, by address; the closer `C` and
-- the callers of `release` are seen by what was handed to them.
pub mod Owner
pub mod Cast
mod Tests
use ice_coroutines.Base.{ℕ, zero, suc, ℤ, eqb_ℤ, Bool, not, List, [], ◌∷◌, ◌++◌, if◌then◌else◌}

-- The object at an address, or `d`, and a write to it.
abbrev pub get_or : List ℤ → ℕ → ℤ → ℤ
get_or [] i d = d
get_or (x ∷ xs) zero d = x
get_or (x ∷ xs) (suc i) d = get_or xs i d

abbrev pub set : List ℤ → ℕ → ℤ → List ℤ
set [] i v = []
set (x ∷ xs) zero v = v ∷ xs
set (x ∷ xs) (suc i) v = x ∷ set xs i v

pub record Handles : Type 0 where
  pub slots : List ℤ
  pub closed : List ℤ
  pub released : List ℤ

-- A call on the objects by address.
pub data Op : Type 0 where
  constructs : ℤ → Op
  move_constructs releases resets destroys : ℕ → Op
  resets_to : ℕ → ℤ → Op
  swaps move_assigns : ℕ → ℕ → Op

module _ (invalid : ℤ) where
  -- `handle_view::valid`.
  abbrev pub valid : ℤ → Bool
  valid v = not (eqb_ℤ v invalid)

  abbrev pub value : Handles → ℕ → ℤ
  value h i = get_or h.slots i invalid

  abbrev write : Handles → ℕ → ℤ → Handles
  write h i v = record h { slots = set h.slots i v }

  -- `C{}(*this)`.
  abbrev close : Handles → ℤ → Handles
  close h v = record h { closed = v ∷ h.closed }

  -- `handle(V value)`, a new object.
  unfoldable pub construct : Handles → ℤ → Handles
  construct h v = record h { slots = h.slots ++ v ∷ [] }

  -- `release()`: the value, and the state that it leaves.
  unfoldable pub take : Handles → ℕ → ℤ × Handles
  take h i = (value h i, write h i invalid)

  -- A caller that keeps the value of `release()` owns it from then on.
  unfoldable pub release : Handles → ℕ → Handles
  unfolding take
  release h i = let (v, h') = take h i in record h' { released = v ∷ h'.released }

  -- `reset(V value)`.
  unfoldable pub reset_to : Handles → ℕ → ℤ → Handles
  reset_to h i v = let h' = if valid (value h i) then close h (value h i) else h in write h' i v

  -- `reset()`, and the destructor.
  unfoldable pub reset : Handles → ℕ → Handles
  unfolding reset_to
  reset h i = reset_to h i invalid

  -- `swap(handle& other)` for the objects at `i` and `j`.
  unfoldable pub swap : Handles → ℕ → ℕ → Handles
  swap h i j = let v = value h j in let h' = write h j (value h i) in write h' i v

  -- `handle(handle&& other)`, a new object.
  unfoldable pub move_construct : Handles → ℕ → Handles
  unfolding take construct
  move_construct h j = let (v, h') = take h j in construct h' v

  -- `operator=(handle&& other)`: a temporary takes the value of `other` and swaps with `*this`, and
  -- its destructor closes what it got.
  unfoldable pub move_assign : Handles → ℕ → ℕ → Handles
  unfolding take
  move_assign h i j =
      let (v, h') = take h j in
      let old = value h' i in let h'' = write h' i v in if valid old then close h'' old else h''

  unfoldable pub step : Handles → Op → Handles
  unfolding construct move_construct release reset reset_to swap move_assign
  step h (constructs v) = construct h v
  step h (move_constructs j) = move_construct h j
  step h (releases i) = release h i
  step h (resets i) = reset h i
  step h (destroys i) = reset h i
  step h (resets_to i v) = reset_to h i v
  step h (swaps i j) = swap h i j
  step h (move_assigns i j) = move_assign h i j

  unfoldable pub run : Handles → List Op → Handles
  unfolding step
  run h [] = h
  run h (op ∷ ops) = run (step h op) ops
