-- ===== src/Result/Storage.antt =====
-- `detail::result_storage`: a union of a value and an error code with a flag for the active member.
-- Reading or destroying a member that is not active is undefined, and has no result here. Nor has the
-- construction of a member where another still is: that one would never be destroyed.
pub mod Laws
use ice_coroutines.Base.{
  ℕ, ◌==◌, Bool, true, false, Option, none, some, if◌then◌else◌, ◌≡◌, ◌≢◌, refl, arith, ==_iff, ◌⊎◌,
  inl, inr, ◌↔◌, fun_ext, ◌>>=◌,
}
use ice_coroutines.Error.{ErrorCode, no_error}

-- The union: which member's lifetime has begun. `raw` is storage in which none has.
pub data Member (A : Type 0) : Type 0 where
  value : A → Member A
  error : ErrorCode → Member A
  raw : Member A

pub record Storage (A : Type 0) : Type 0 where
  pub member : Member A
  pub has_value : Bool

-- The objects of one type, by address.
abbrev pub Store : Type 0 → Type 0
Store A = ℕ → Storage A

module _ {A : Type 0} where
  -- `result_storage(Args&&...)` and `result_storage(error_type)`.
  abbrev pub from_value : A → Storage A
  from_value a = record { member = value a; has_value = true }

  abbrev pub from_error : ErrorCode → Storage A
  from_error e = record { member = error e; has_value = false }

  -- A write to one object.
  abbrev pub update : Store A → ℕ → Storage A → Store A
  update st p s q = if p == q then s else st q

  -- The member that a flag names, read for a copy.
  unfoldable pub read_member : Bool → Member A → Option (Member A)
  read_member true (value a) = some (value a)
  read_member false (error e) = some (error e)
  read_member _ _ = none

  -- `~result_storage()`, and the first half of the assignments.
  unfoldable pub destroy : Bool → Member A → Option (Member A)
  destroy true (value a) = some raw
  destroy false (error e) = some raw
  destroy _ _ = none

  -- The placement `new` of a member, by what is there.
  unfoldable pub place : Member A → Member A → Option (Member A)
  place raw m = some m
  place _ m = none

  -- The copy constructor.
  unfoldable pub copy_construct : Storage A → Option (Storage A)
  unfolding read_member place
  copy_construct other = do
    m ← read_member other.has_value other.member
    fresh ← place raw m
    some (record { member = fresh; has_value = other.has_value })

  -- `operator=(const result_storage& other)` for the objects at two addresses.
  unfoldable pub copy_assign : ℕ → ℕ → Store A → Option (Store A)
  unfolding read_member destroy place
  copy_assign this other st = do
    dead ← destroy (st this).has_value (st this).member
    let st1 = update st this (record { member = dead; has_value = (st this).has_value })
    let flag = (st1 other).has_value
    let st2 = update st1 this (record { member = dead; has_value = flag })
    m ← read_member flag (st2 other).member
    fresh ← place (st2 this).member m
    some (update st2 this (record { member = fresh; has_value = flag }))

  -- What a move leaves in its source; `moved` is the value type's own part of that.
  abbrev pub leave : (A → A) → Member A → Member A
  leave moved (value a) = value (moved a)
  leave moved (error e) = error e
  leave moved raw = raw

  -- `operator=(result_storage&& other)`.
  unfoldable pub move_assign : (A → A) → ℕ → ℕ → Store A → Option (Store A)
  unfolding read_member destroy place
  move_assign moved this other st = do
    dead ← destroy (st this).has_value (st this).member
    let st1 = update st this (record { member = dead; has_value = (st this).has_value })
    let flag = (st1 other).has_value
    let st2 = update st1 this (record { member = dead; has_value = flag })
    m ← read_member flag (st2 other).member
    let st3 =
        update st2 other (record { member = leave moved (st2 other).member; has_value = flag })
    fresh ← place (st2 this).member m
    some (update st3 this (record { member = fresh; has_value = flag }))

  -- The flag names the active member.
  abbrev pub Agrees : Bool → Member A → Type 0
  Agrees true (value a) = Unit
  Agrees false (error e) = Unit
  Agrees _ _ = ⊥

  abbrev pub IsLive : Storage A → Type 0
  IsLive s = Agrees s.has_value s.member
