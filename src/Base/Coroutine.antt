-- ===== src/Base/Coroutine.antt =====
-- A coroutine as a machine: it stops at each call of the operating system, and the reply to that
-- call takes it to the next one or to its `co_return`. `run` feeds it the replies of a whole run.
use mathlib.Core.Path.{◌≡◌, refl}
use mathlib.Core.Logic.{◌⊎◌, inl, inr}
use mathlib.Core.List.{List, [], ◌∷◌}

-- After one reply: at its next call, or returned.
pub data Next {ℓ κ} (S : Type ℓ) (A : Type κ) : Type (ℓ ⊔ κ) where
  goto : S → Next S A
  ret : A → Next S A

-- After a list of replies: still at a call, or returned with the replies that it did not use.
pub data Progress {ℓ κ μ} (R : Type ℓ) (S : Type κ) (A : Type μ) : Type (ℓ ⊔ κ ⊔ μ) where
  waiting : S → Progress R S A
  returned : A → List R → Progress R S A

-- What holds of the machine's place after a step, and after a run.
abbrev pub After {ℓ κ ν} :
    {S : Type ℓ} {A : Type κ} → (S → Type ν) → (A → Type ν) → Next S A → Type ν
After P Q (goto s) = P s
After P Q (ret a) = Q a

abbrev pub Reached {ℓ κ μ ν} :
    {R : Type ℓ} {S : Type κ} {A : Type μ} → (S → Type ν) → (A → Type ν) → Progress R S A → Type ν
Reached P Q (waiting s) = P s
Reached P Q (returned a rs) = Q a

pub Next-cases {ℓ κ} :
    {S : Type ℓ} {A : Type κ} (n : Next S A) → ((s : S) × (n ≡ goto s)) ⊎ ((a : A) × (n ≡ ret a))
Next-cases (goto s) = inl (s, refl)
Next-cases (ret a) = inr (a, refl)

module _ {ℓ κ μ} {R : Type ℓ} {S : Type κ} {A : Type μ} (step : S → R → Next S A) where
  unfoldable pub run : S → List R → Progress R S A
  run s [] = waiting s
  run s (r ∷ rs) = elim (step s r) [ goto t ↦ run t rs | ret a ↦ returned a rs ]

  pub run-goto : {s t : S} {r : R} (rs : List R) → step s r ≡ goto t → run s (r ∷ rs) ≡ run t rs
  unfolding run
  run-goto rs e = rw (e, run)

  pub run-ret :
      {s : S} {a : A} {r : R} (rs : List R) → step s r ≡ ret a → run s (r ∷ rs) ≡ returned a rs
  unfolding run
  run-ret rs e = rw (e, run)

  -- What every step keeps holds at whatever place a run reaches.
  pub run_inv {ν} :
      (P : S → Type ν) (Q : A → Type ν)
      → ((s : S) (r : R) → P s → After P Q (step s r))
      → (s : S) (rs : List R) → P s
      → Reached P Q (run s rs)
  unfolding run
  run_inv P Q keep s [] h = h
  run_inv P Q keep s (r ∷ rs) h = elim (Next-cases (step s r)) [
    | inl (t, e) ↦ rw (run-goto rs e) (run_inv P Q keep t rs (rw e at (keep s r h)))
    | inr (a, e) ↦ rw (run-ret rs e) (rw e at (keep s r h))
  ]
