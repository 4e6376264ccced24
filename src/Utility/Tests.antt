-- ===== src/Utility/Tests.antt =====
-- A context runs a service, and a guard is moved.
use ice_coroutines.Base.{
  ℕ, true, false, Option, none, some, pos, false, ◌↔◌, arith, List, [], ◌∷◌, ◌≡◌, ◌≢◌, refl,
}
use ice_coroutines.Utility.{Values, is_current, Calls, nothing, runs, schedules, exec}
use ice_coroutines.Utility.Current.{mem, expected, exec-Agrees}
use ice_coroutines.Handle.Cast.{uint32, int32, as_value}
use ice_coroutines.Utility.Storage.{
  windows_storage, posix_storage, windows_valid, posix_valid, storage_lem,
}
use ice_coroutines.Utility.Scope.{Scope, Op, moves, destroys, on_scope_exit, run}

abbrev fresh : Values
fresh = λ t k. none

-- The context is 1 and the service 2.
abbrev calls : Calls
calls = runs 1 (runs 2 (schedules 1 false nothing) (schedules 2 false nothing)) nothing

calls-answers : (exec 7 calls fresh).0 ≡ true ∷ false ∷ []
unfolding exec
calls-answers = refl

exec-Agrees_example :
    ((exec 7 calls fresh).0 ≡ expected [] calls)
    × ((s : ℕ) → is_current (exec 7 calls fresh).1 7 s ≡ mem s [])
    × ((t k : ℕ) → t ≢ 7 → (exec 7 calls fresh).1 t k ≡ fresh t k)
unfolding is_current mem
exec-Agrees_example = exec-Agrees 7 [] calls fresh (refl, (refl, tt, tt), tt) (λ s. refl)

abbrev ops : List Op
ops = moves 0 ∷ destroys 0 ∷ destroys 1 ∷ []

abbrev left : Scope
left = record {
  guards = record { invoke = false; alive = false } ∷ record { invoke = true; alive = false } ∷ [];
  calls = 1;
}

ops-left : run on_scope_exit ops ≡ Option.some left
unfolding run
ops-left = refl

storage_lem_example :
    (as_value uint32 (posix_storage uint32 (some 3)) ≡ pos 3)
    × (posix_valid (posix_storage uint32 (some 3)) ≡ true)
    × (as_value uint32 (windows_storage (some 3)) ≡ pos 3)
    × ((windows_valid (windows_storage (some 3)) ≡ true) ↔ (◌≢◌ {A = ℕ} 3 0))
    × (windows_valid (windows_storage none) ≡ true)
    × (posix_valid (posix_storage uint32 none) ≡ true)
    × (posix_valid (posix_storage int32 none) ≡ false)
storage_lem_example = storage_lem uint32 3 refl (omega arith)
