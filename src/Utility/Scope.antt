-- ===== src/Utility/Scope.antt =====
-- `scope_exit` of src/ice/include/ice/utility.hpp: objects that stand in a list, by address, and the
-- calls of the handler that they share. `none` is an operation on no living object.
use ice_coroutines.Base.{
  ℕ, zero, suc, ◌+◌, Bool, true, false, Option, none, some, List, [], ◌∷◌, ◌++◌, if◌then◌else◌,
  ◌>>=◌, >>=-eq-some, ◌≤◌, ◌∙◌, ◌≡◌, refl, arith,
}

-- `invoke_`, and whether the object has not been destroyed.
pub record Guard : Type 0 where
  pub invoke : Bool
  pub alive : Bool

pub record Scope : Type 0 where
  pub guards : List Guard
  pub calls : ℕ

pub data Op : Type 0 where
  moves destroys : ℕ → Op

-- `std::exchange(other.invoke_, false)`.
unfoldable pub exchange_invoke : List Guard → ℕ → Option (Bool × List Guard)
exchange_invoke [] i = none
exchange_invoke (g ∷ gs) zero =
    if g.alive then some (g.invoke, record g { invoke = false } ∷ gs) else none
exchange_invoke (g ∷ gs) (suc i) = do (b, gs') ← exchange_invoke gs i; some (b, g ∷ gs')

-- The end of the lifetime of an object, with its `invoke_`.
unfoldable pub end : List Guard → ℕ → Option (Bool × List Guard)
end [] i = none
end (g ∷ gs) zero = if g.alive then some (g.invoke, record g { alive = false } ∷ gs) else none
end (g ∷ gs) (suc i) = do (b, gs') ← end gs i; some (b, g ∷ gs')

-- `on_scope_exit`.
abbrev pub on_scope_exit : Scope
on_scope_exit = record { guards = record { invoke = true; alive = true } ∷ []; calls = 0 }

-- The move constructor, which makes a new object, and the destructor.
unfoldable pub step : Scope → Op → Option Scope
unfolding exchange_invoke end
step s (moves i) = do
  (b, gs) ← exchange_invoke s.guards i
  some (record s { guards = gs ++ record { invoke = b; alive = true } ∷ [] })
step s (destroys i) = do
  (b, gs) ← end s.guards i
  some (record { guards = gs; calls = if b then s.calls + 1 else s.calls })

unfoldable pub run : Scope → List Op → Option Scope
unfolding step
run s [] = some s
run s (op ∷ ops) = do t ← step s op; run t ops

-- The living objects that will call the handler.
unfoldable pub armed : List Guard → ℕ
armed [] = 0
armed (g ∷ gs) = (if g.alive then (if g.invoke then 1 else 0) else 0) + armed gs

unfoldable pub is_dead : List Guard → Bool
is_dead [] = true
is_dead (g ∷ gs) = if g.alive then false else is_dead gs

abbrev weight : Bool → ℕ
weight b = if b then 1 else 0

exchange-armed :
    (gs : List Guard) (i : ℕ) (b : Bool) (gs' : List Guard)
    → exchange_invoke gs i ≡ some (b, gs')
    → armed gs ≡ weight b + armed gs'
unfolding exchange_invoke armed
exchange-armed [] i b gs' h = ground arith
exchange-armed (g ∷ gs) zero b gs' h = ground arith
exchange-armed (g ∷ gs) (suc i) b gs' h =
    let ((c, hs), e, k) = >>=-eq-some (exchange_invoke gs i) _ h in
    ground (arith, exchange-armed gs i c hs e, k)

end-armed :
    (gs : List Guard) (i : ℕ) (b : Bool) (gs' : List Guard)
    → end gs i ≡ some (b, gs')
    → armed gs ≡ weight b + armed gs'
unfolding end armed
end-armed [] i b gs' h = ground arith
end-armed (g ∷ gs) zero b gs' h = ground arith
end-armed (g ∷ gs) (suc i) b gs' h =
    let ((c, hs), e, k) = >>=-eq-some (end gs i) _ h in ground (arith, end-armed gs i c hs e, k)

armed-append : (xs ys : List Guard) → armed (xs ++ ys) ≡ armed xs + armed ys
unfolding armed
armed-append [] ys = omega arith
armed-append (x ∷ xs) ys = omega (arith, armed-append xs ys)

step-armed :
    (s t : Scope) (op : Op)
    → step s op ≡ some t
    → t.calls + armed t.guards ≡ s.calls + armed s.guards
unfolding step armed
step-armed s t (moves i) h =
    let ((b, gs), e, k) = >>=-eq-some (exchange_invoke s.guards i) _ h in
    ground (
      arith,
      exchange-armed s.guards i b gs e,
      armed-append gs (record { invoke = b; alive = true } ∷ []),
      k,
    )
step-armed s t (destroys i) h =
    let ((b, gs), e, k) = >>=-eq-some (end s.guards i) _ h in
    ground (arith, end-armed s.guards i b gs e, k)

run-armed :
    (s t : Scope) (ops : List Op)
    → run s ops ≡ some t
    → t.calls + armed t.guards ≡ s.calls + armed s.guards
unfolding run
run-armed s t [] h = ground arith
run-armed s t (op ∷ ops) h =
    let (u, e, k) = >>=-eq-some (step s op) _ h in run-armed u t ops k ∙ step-armed s u op e

is_dead-armed : (gs : List Guard) → is_dead gs ≡ true → armed gs ≡ 0
unfolding is_dead armed
is_dead-armed [] h = refl
is_dead-armed (g ∷ gs) h = ground (arith, is_dead-armed gs)

-- However a guard is moved on, its handler is called at most once, and exactly once by the time that
-- all the objects have been destroyed.
scope_exit-once :
    (ops : List Op) (t : Scope)
    → run on_scope_exit ops ≡ some t
    → (t.calls ≤ 1) × (is_dead t.guards ≡ true → t.calls ≡ 1)
unfolding armed
scope_exit-once ops t h =
    let kept = run-armed on_scope_exit t ops h in
    (omega (arith, kept), λ d. omega (arith, kept, is_dead-armed t.guards d))
