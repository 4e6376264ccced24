-- ===== src/Result/Tests.antt =====
-- Results at concrete inputs.
use ice_coroutines.Base.{ℕ, true, false, pos, ◌==◌, some, ◌≡◌, if◌then◌else◌, arith}
use ice_coroutines.Error.{ErrorCode, native}
use ice_coroutines.Result.Members.{
  Traits, traits, result, assigns_lvalue, assigns_rvalue, members_lem,
}
use ice_coroutines.Result.Storage.{Store, from_value, from_error, update, copy_assign, move_assign}
use ice_coroutines.Result.Storage.Laws.{assign_lem}

abbrev reset : ErrorCode
reset = record { value = pos 104; category = native }

-- The object 0 holds a value and all others hold an error.
abbrev store : Store ℕ
store p = if p == 0 then from_value 7 else from_error reset

assign_lem_example :
    (copy_assign 1 0 store ≡ some (update store 1 (from_value 7)))
    × (move_assign (λ _. 0) 1 0 store
        ≡ some (update (update store 0 (from_value 0)) 1 (from_value 7)))
assign_lem_example = assign_lem (λ _. 0) 1 0 store (omega arith) tt tt

-- A type that can be moved and assigned, but not copied into a new object.
abbrev assigned : Traits
assigned = record {
  move_constructs = true;
  copy_constructs = false;
  move_assigns = true;
  copy_assigns = true;
}

members_lem_example :
    (traits (result assigned) ≡ record {
      move_constructs = true;
      copy_constructs = false;
      move_assigns = true;
      copy_assigns = true;
    })
    × (assigns_lvalue assigned ≡ false)
    × (assigns_rvalue assigned ≡ true)
members_lem_example = members_lem assigned
