-- ===== src/Scheduler/Chain.antt =====
-- Lists of schedules in the links.
use ice_coroutines.Base.{ℕ, Option, none, some, List, [], ◌∷◌, ◌≡◌, ◌≢◌, subst, arith, All, sym}
use ice_coroutines.Scheduler.{Links, update}

-- The links lead from `p` through the members of the list, and end there.
abbrev pub Chain : Links → Option ℕ → List ℕ → Type 0
Chain next p [] = p ≡ none
Chain next p (x ∷ xs) = (p ≡ some x) × Chain next (next x) xs

abbrev pub Absent : ℕ → List ℕ → Type 0
Absent s = All (λ x. s ≢ x)

abbrev pub Distinct : List ℕ → Type 0
Distinct [] = Unit
Distinct (x ∷ xs) = Absent x xs × Distinct xs

-- A write to a link outside the list.
pub Chain-update :
    (next : Links) (p : Option ℕ) (xs : List ℕ) (s : ℕ) (v : Option ℕ)
    → Absent s xs
    → Chain next p xs
    → Chain (update next s v) p xs
Chain-update next p [] s v a c = c
Chain-update next p (x ∷ xs) s v a c = (
  c.0,
  subst (λ t. Chain (update next s v) t xs) (sym (kept a.0))
      (Chain-update next (next x) xs s v a.1 c.1),
)
  where
    kept : s ≢ x → update next s v x ≡ next x
    kept ne = ground arith

-- Links that agree on the members of the list.
pub Chain-same :
    (next links : Links) (p : Option ℕ) (xs : List ℕ)
    → All (λ x. links x ≡ next x) xs
    → Chain next p xs
    → Chain links p xs
Chain-same next links p [] e c = c
Chain-same next links p (x ∷ xs) e c =
    (c.0, subst (λ t. Chain links t xs) (sym e.0) (Chain-same next links (next x) xs e.1 c.1))
