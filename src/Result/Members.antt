-- ===== src/Result/Members.antt =====
-- Which special members `result<T>` of src/ice/include/ice/result.hpp has: it defaults all four over
-- the base classes of src/ice/include/ice/utility.hpp, which delete those that `T` lacks.
use ice_coroutines.Base.{Bool, true, false, ◌&&◌, ◌||◌, List, [], ◌∷◌, ◌≡◌, arith, if◌then◌else◌}

-- A special member: usable, deleted where it is declared, or defaulted and deleted by the compiler.
pub data Special : Type 0 where
  usable deleted omitted : Special

pub record Class : Type 0 where
  pub move_construct : Special
  pub copy_construct : Special
  pub move_assign : Special
  pub copy_assign : Special

-- What `std::is_move_constructible_v` and its three relatives say of a type.
pub record Traits : Type 0 where
  pub move_constructs : Bool
  pub copy_constructs : Bool
  pub move_assigns : Bool
  pub copy_assigns : Bool

abbrev pub all_usable : Class
all_usable = record {
  move_construct = usable;
  copy_construct = usable;
  move_assign = usable;
  copy_assign = usable;
}

-- The base classes, with their specialisations for `false`.
unfoldable pub delete_move_constructor : Bool → Class
delete_move_constructor true = all_usable
delete_move_constructor false = record all_usable { move_construct = deleted }

unfoldable pub delete_copy_constructor : Bool → Class
delete_copy_constructor true = all_usable
delete_copy_constructor false = record all_usable { copy_construct = deleted }

unfoldable pub delete_move_assignment : Bool → Class
delete_move_assignment true = all_usable
delete_move_assignment false = record all_usable { move_assign = deleted }

unfoldable pub delete_copy_assignment : Bool → Class
delete_copy_assignment true = all_usable
delete_copy_assignment false = record all_usable { copy_assign = deleted }

-- Overload resolution between a copying and a moving member: for an lvalue the first is called, for an
-- rvalue the second, which takes part unless the compiler deleted it.
abbrev pub accepts_lvalue : Special → Bool
accepts_lvalue usable = true
accepts_lvalue _ = false

abbrev pub accepts_rvalue : Special → Special → Bool
accepts_rvalue copy usable = true
accepts_rvalue copy deleted = false
accepts_rvalue copy omitted = accepts_lvalue copy

abbrev pub all : (Class → Bool) → List Class → Bool
all p [] = true
all p (c ∷ cs) = p c && all p cs

-- A member that is defaulted is deleted where some base class or member has none to call.
abbrev pub defaulted : Bool → Special
defaulted true = usable
defaulted false = omitted

unfoldable pub default_members : List Class → Class
default_members parts = record {
  move_construct = defaulted (all (λ c. accepts_rvalue c.copy_construct c.move_construct) parts);
  copy_construct = defaulted (all (λ c. accepts_lvalue c.copy_construct) parts);
  move_assign = defaulted (all (λ c. accepts_rvalue c.copy_assign c.move_assign) parts);
  copy_assign = defaulted (all (λ c. accepts_lvalue c.copy_assign) parts);
}

unfoldable pub traits : Class → Traits
traits c = record {
  move_constructs = accepts_rvalue c.copy_construct c.move_construct;
  copy_constructs = accepts_lvalue c.copy_construct;
  move_assigns = accepts_rvalue c.copy_assign c.move_assign;
  copy_assigns = accepts_lvalue c.copy_assign;
}

-- `result_storage<T>` declares all four, so that their bodies are looked at only where they are called.
abbrev pub result_storage : Class
result_storage = all_usable

-- `result<T>`, for what the traits say of `T`.
unfoldable pub result : Traits → Class
unfolding delete_move_constructor delete_copy_constructor delete_move_assignment
    delete_copy_assignment default_members
result t = default_members (
    delete_move_constructor t.move_constructs
    ∷ delete_copy_constructor t.copy_constructs
    ∷ delete_move_assignment t.move_assigns
    ∷ delete_copy_assignment t.copy_assigns
    ∷ result_storage
    ∷ [])

-- The bodies of `result_storage<T>`: each assignment destroys the old member and constructs the new one, so
-- it needs a constructor of `T`.
abbrev pub bodies : Traits → Traits
bodies t = record {
  move_constructs = t.move_constructs;
  copy_constructs = t.copy_constructs;
  move_assigns = t.move_constructs;
  copy_assigns = t.copy_constructs;
}

-- Whether an assignment from an lvalue, and one from an rvalue, compiles: the member that is called, and its
-- body.
unfoldable pub assigns_lvalue : Traits → Bool
unfolding result
assigns_lvalue t = accepts_lvalue (result t).copy_assign && (bodies t).copy_assigns

unfoldable pub assigns_rvalue : Traits → Bool
unfolding result assigns_lvalue
assigns_rvalue t = elim (result t).move_assign [
  | usable ↦ (bodies t).move_assigns
  | deleted ↦ false
  | omitted ↦ assigns_lvalue t
]

-- `result<T>` can be copied exactly if `T` can, and takes an rvalue exactly if `T` takes one or can be
-- copied, in constructors and assignments alike. But an assignment that these traits promise compiles only
-- if `T` has the constructor of the same kind as well.
pub members_lem :
    (t : Traits)
    → (traits (result t) ≡ record {
      move_constructs = t.move_constructs || t.copy_constructs;
      copy_constructs = t.copy_constructs;
      move_assigns = t.move_assigns || t.copy_assigns;
      copy_assigns = t.copy_assigns;
    })
      × (assigns_lvalue t ≡ (t.copy_assigns && t.copy_constructs))
      × (assigns_rvalue t
          ≡ (if t.move_assigns then t.move_constructs else t.copy_assigns && t.copy_constructs))
unfolding traits result assigns_lvalue assigns_rvalue
members_lem t = ground arith
