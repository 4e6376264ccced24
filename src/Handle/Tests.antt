-- ===== src/Handle/Tests.antt =====
-- A history of handles.
use ice_coroutines.Base.{pos, negsuc, List, [], ◌∷◌, ◌≡◌, refl, arith, ◌+◌}
use ice_coroutines.Handle.{Handles, Op, constructs, move_assigns, destroys, step, run}
use ice_coroutines.Handle.Cast.{int32, uint64, from_value, as_value, as-from_value}
use ice_coroutines.Handle.Owner.{total, acquisitions, run-total}

abbrev empty : Handles
empty = record { slots = []; closed = []; released = [] }

-- Two sockets, the first moved over the second, and both destroyed; -1 is the invalid handle.
abbrev history : List Op
history = constructs (pos 3) ∷ constructs (pos 4) ∷ move_assigns 1 0 ∷ destroys 0 ∷ destroys 1 ∷ []

both_closed :
    run (negsuc 0) empty history
    ≡ record { slots = negsuc 0 ∷ negsuc 0 ∷ []; closed = pos 3 ∷ pos 4 ∷ []; released = [] }
unfolding run
both_closed = refl

run-total_example :
    total (pos 3) (run (negsuc 0) empty history)
    ≡ acquisitions (pos 3) history + total (pos 3) empty
unfolding step
run-total_example = run-total (negsuc 0) (pos 3) empty history (λ e. cc) (omega arith)

-- An `int` of -1 in a handle of `std::uintptr_t`.
minus_one : from_value uint64 (negsuc 0) ≡ pos 18446744073709551615
unfolding from_value
minus_one = refl

minus_one_back : as_value int32 (from_value uint64 (negsuc 0)) ≡ negsuc 0
minus_one_back = as-from_value int32 uint64 (negsuc 0) (omega arith) (omega arith)
