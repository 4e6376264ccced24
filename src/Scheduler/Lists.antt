-- ===== src/Scheduler/Lists.antt =====
-- Lists of schedules of which one thing holds: in one state, or owned by one thread.
use mathlib.Core.List.{reverse-cons}
use ice_coroutines.Base.{
  ℕ, Option, some, List, [], ◌∷◌, ◌++◌, reverse, ◌≡◌, ◌≢◌, refl, arith, All, All-append, All-map,
  ◌∙◌, ap, sym,
}
use ice_coroutines.Scheduler.{update}
use ice_coroutines.Scheduler.Chain.{Absent, Distinct}

-- A schedule of which something else holds than of the members of a list.
pub Absent-by {ℓ} :
    {A : Type ℓ} (f : ℕ → A) (s : ℕ) (a : A) (xs : List ℕ)
    → f s ≢ a
    → All (λ x. f x ≡ a) xs
    → Absent s xs
Absent-by f s a [] n w = tt
Absent-by f s a (x ∷ xs) n w = ((λ e. n (ap f e ∙ w.0)), Absent-by f s a xs n w.1)

pub All-update {ℓ} :
    {A : Type ℓ} (f : ℕ → A) (s : ℕ) (v a : A) (xs : List ℕ)
    → Absent s xs
    → All (λ x. f x ≡ a) xs
    → All (λ x. update f s v x ≡ a) xs
All-update f s v a [] n w = tt
All-update {A} f s v a (x ∷ xs) n w = (one n.0 w.0, All-update f s v a xs n.1 w.1)
  where
    one : s ≢ x → f x ≡ a → update f s v x ≡ a
    one ne e = ground arith

pub All-reverse : (P : ℕ → Type 0) (xs : List ℕ) → All P xs → All P (reverse xs)
All-reverse P [] a = tt
All-reverse P (x ∷ xs) a =
    rw (reverse-cons x xs) (All-append P (reverse xs) (x ∷ []) (All-reverse P xs a.1) (a.0, tt))

Distinct-append : (xs : List ℕ) (y : ℕ) → Distinct xs → Absent y xs → Distinct (xs ++ y ∷ [])
Distinct-append [] y d a = (tt, tt)
Distinct-append (x ∷ xs) y d a =
    (All-append (λ z. x ≢ z) xs (y ∷ []) d.0 ((λ e. a.0 (sym e)), tt), Distinct-append xs y d.1 a.1)

pub Distinct-reverse : (xs : List ℕ) → Distinct xs → Distinct (reverse xs)
Distinct-reverse [] d = tt
Distinct-reverse (x ∷ xs) d =
    rw (reverse-cons x xs)
      (Distinct-append (reverse xs) x (Distinct-reverse xs d.1) (All-reverse (λ z. x ≢ z) xs d.0))

-- A thread that takes schedules owns them.
pub claim : ℕ → List ℕ → (ℕ → Option ℕ) → ℕ → Option ℕ
claim t [] f = f
claim t (s ∷ ss) f = update (claim t ss f) s (some t)

pub claim-own : (t : ℕ) (xs : List ℕ) (f : ℕ → Option ℕ) → All (λ s. claim t xs f s ≡ some t) xs
unfolding claim
claim-own t [] f = tt
claim-own t (x ∷ xs) f = (
  ground arith,
  All-map (λ s. claim t xs f s ≡ some t) (λ s. update (claim t xs f) x (some t) s ≡ some t) xs
      (λ s e. ground arith) (claim-own t xs f),
)

pub claim-other :
    (t : ℕ) (xs : List ℕ) (f : ℕ → Option ℕ) (s : ℕ) → Absent s xs → claim t xs f s ≡ f s
unfolding claim
claim-other t [] f s a = refl
claim-other t (x ∷ xs) f s a = ground (arith, a.0, claim-other t xs f s a.1)
