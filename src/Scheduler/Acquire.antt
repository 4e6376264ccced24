-- ===== src/Scheduler/Acquire.antt =====
-- `acquire` turns the list of the posted schedules round.
use mathlib.Core.List.{reverse-cons}
use mathlib.Core.Path.{subst₂}
use ice_coroutines.Base.{
  ℕ, zero, suc, ◌≤◌, Option, none, some, List, [], ◌∷◌, ◌++◌, reverse, ◌≡◌, ◌≢◌, refl, subst, arith,
  All, length, ◌∙◌, ap, sym, append_assoc, append-nil,
}
use ice_coroutines.Scheduler.{Links, update, turn, acquire}
use ice_coroutines.Scheduler.Chain.{Chain, Absent, Distinct, Chain-update}

-- No schedule is in both lists.
abbrev pub Apart : List ℕ → List ℕ → Type 0
Apart xs ys = All (λ x. Absent x ys) xs

pub Apart-cons : (x : ℕ) (xs ys : List ℕ) → Absent x xs → Apart xs ys → Apart xs (x ∷ ys)
Apart-cons x [] ys a d = tt
Apart-cons x (z ∷ xs) ys a d = ((λ e. a.0 (sym e), d.0), Apart-cons x xs ys a.1 d.1)

pub Apart-nil : (xs : List ℕ) → Apart xs []
Apart-nil [] = tt
Apart-nil (x ∷ xs) = (tt, Apart-nil xs)

-- What the loop leaves: the chain turned round, and all other links as they were.
pub record Turned (next : Links) (xs zs : List ℕ) (r : Option (Links × Option ℕ)) : Type 0 where
  pub links : Links
  pub first : Option ℕ
  pub result : r ≡ some (links, first)
  pub chain : Chain links first zs
  pub others : (q : ℕ) → Absent q xs → links q ≡ next q

turn-Turned :
    (fuel : ℕ) (next : Links) (prev head : Option ℕ) (xs ys : List ℕ)
    → Chain next head xs
    → Chain next prev ys
    → Distinct xs
    → Apart xs ys
    → length xs ≤ fuel
    → Turned next xs (reverse xs ++ ys) (turn fuel next prev head)
unfolding turn
turn-Turned fuel next prev head [] ys c k d a h = record {
  links = next;
  first = prev;
  result = rw (c, turn);
  chain = k;
  others = λ q _. refl;
}
turn-Turned zero next prev head (x ∷ xs) ys c k d a h = absurd (omega arith)
turn-Turned (suc fuel) next prev head (x ∷ xs) ys c k d a h =
    let next1 = update next x prev in
    let here : next1 x ≡ prev = ground arith in
    let t =
      turn-Turned fuel next1 (some x) (next x) xs (x ∷ ys)
        (Chain-update next (next x) xs x prev d.0 c.1)
        (refl, subst (λ p. Chain next1 p ys) (sym here) (Chain-update next prev ys x prev a.0 k))
        d.1 (Apart-cons x xs ys d.0 a.1) (omega arith) in
    record {
      links = t.links;
      first = t.first;
      result = rw (c.0, turn) t.result;
      chain =
          subst (Chain t.links t.first)
            (sym (ap (λ l. l ++ ys) (reverse-cons x xs) ∙ append_assoc (reverse xs) (x ∷ []) ys))
            t.chain;
      others = λ q ab. t.others q ab.1 ∙ elsewhere next x prev q ab.0;
    }
  where
    elsewhere : (f : Links) (x : ℕ) (v : Option ℕ) (q : ℕ) → q ≢ x → update f x v q ≡ f q
    elsewhere f x v q ne = ground arith

acquire-turn :
    (fuel : ℕ) (next : Links) {head : Option ℕ} {x y : ℕ}
    → head ≡ some x
    → next x ≡ some y
    → acquire fuel next head ≡ turn fuel next none head
unfolding acquire
acquire-turn fuel next h k = rw (h, acquire) (rw (k, acquire))

-- `acquire` loops for two schedules or more.
abbrev Enough : ℕ → List ℕ → Type 0
Enough fuel (x ∷ y ∷ zs) = length (x ∷ y ∷ zs) ≤ fuel
Enough fuel _ = Unit

acquire-Enough :
    (fuel : ℕ) (next : Links) (head : Option ℕ) (xs : List ℕ)
    → Chain next head xs
    → Distinct xs
    → Enough fuel xs
    → Turned next xs (reverse xs) (acquire fuel next head)
unfolding acquire
acquire-Enough fuel next head [] c d h = record {
  links = next;
  first = none;
  result = rw (c, acquire);
  chain = refl;
  others = λ q _. refl;
}
acquire-Enough fuel next head (x ∷ []) c d h = record {
  links = next;
  first = some x;
  result = rw (c.0, acquire) (rw (c.1, acquire));
  chain = (refl, c.1);
  others = λ q _. refl;
}
acquire-Enough fuel next head (x ∷ y ∷ zs) c d h =
    let xs : List ℕ = x ∷ y ∷ zs in
    let t = turn-Turned fuel next none head xs [] c refl d (Apart-nil xs) h in
    record {
      links = t.links;
      first = t.first;
      result = acquire-turn fuel next c.0 c.1.0 ∙ t.result;
      chain = subst (Chain t.links t.first) (append-nil (reverse xs)) t.chain;
      others = t.others;
    }

-- From a chain of distinct schedules, with fuel for each, `acquire` ends and returns them in the
-- opposite order, and leaves the links of all other schedules alone.
pub acquire-Turned :
    (fuel : ℕ) (next : Links) (head : Option ℕ) (xs : List ℕ)
    → Chain next head xs
    → Distinct xs
    → length xs ≤ fuel
    → Turned next xs (reverse xs) (acquire fuel next head)
acquire-Turned fuel next head [] c d h = acquire-Enough fuel next head [] c d tt
acquire-Turned fuel next head (x ∷ []) c d h = acquire-Enough fuel next head (x ∷ []) c d tt
acquire-Turned fuel next head (x ∷ y ∷ zs) c d h = acquire-Enough fuel next head (x ∷ y ∷ zs) c d h

-- The loop ends only with fuel for every schedule of the chain.
turn-le :
    (fuel : ℕ) (next : Links) (prev head : Option ℕ) (xs : List ℕ) {r : Links × Option ℕ}
    → Chain next head xs
    → Distinct xs
    → turn fuel next prev head ≡ some r
    → length xs ≤ fuel
unfolding turn
turn-le fuel next prev head [] c d e = omega arith
turn-le zero next prev head (x ∷ xs) c d e =
    let stuck : turn zero next prev head ≡ none = rw (c.0, turn) in cc (sym stuck ∙ e)
turn-le (suc fuel) next prev head (x ∷ xs) c d e = omega (
  arith,
  turn-le fuel (update next x prev) (some x) (next x) xs
      (Chain-update next (next x) xs x prev d.0 c.1) d.1 (rw (c.0, turn) at e),
)

-- What a successful `acquire` leaves, for whatever fuel: a chain in the opposite order, and the
-- links of all other schedules.
pub acquire-Chain :
    (fuel : ℕ) (next links : Links) (head first : Option ℕ) (xs : List ℕ)
    → Chain next head xs
    → Distinct xs
    → acquire fuel next head ≡ some (links, first)
    → Chain links first (reverse xs) × ((q : ℕ) → Absent q xs → links q ≡ next q)
acquire-Chain fuel next links head first xs c d e =
    same (acquire-Enough fuel next head xs c d (enough xs c d))
  where
    enough : (ys : List ℕ) → Chain next head ys → Distinct ys → Enough fuel ys
    enough [] k m = tt
    enough (x ∷ []) k m = tt
    enough (x ∷ y ∷ zs) k m =
        turn-le fuel next none head (x ∷ y ∷ zs) k m (sym (acquire-turn fuel next k.0 k.1.0) ∙ e)

    same :
        Turned next xs (reverse xs) (acquire fuel next head)
        → Chain links first (reverse xs) × ((q : ℕ) → Absent q xs → links q ≡ next q)
    same t =
        let p : t.links ≡ links = cc (sym t.result ∙ e) in
        let f : t.first ≡ first = cc (sym t.result ∙ e) in
        subst₂ (λ l h. Chain l h (reverse xs) × ((q : ℕ) → Absent q xs → l q ≡ next q)) p f
          (t.chain, t.others)
