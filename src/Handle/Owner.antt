-- ===== src/Handle/Owner.antt =====
-- Every handle of the operating system has exactly one owner until it is closed.
use ice_coroutines.Base.{
  ap, ℕ, zero, suc, ◌+◌, ◌<◌, ℤ, eqb_ℤ, eqb_ℤ_iff, false, List, [], ◌∷◌, ◌++◌, if◌then◌else◌, ◌≡◌,
  ◌≢◌, refl, arith, length, ◌==◌, ==_iff, Bool-cases, inl, inr,
}
use ice_coroutines.Handle.{
  Handles, get_or, set, valid, value, construct, release, reset_to, reset, swap, move_construct,
  move_assign, Op, constructs, move_constructs, releases, resets, destroys, resets_to, swaps,
  move_assigns, step, run,
}

abbrev pub hit : ℤ → ℤ → ℕ
hit a v = if eqb_ℤ a v then 1 else 0

abbrev pub count : ℤ → List ℤ → ℕ
count v [] = 0
count v (x ∷ xs) = hit x v + count v xs

count-append : (v : ℤ) (xs ys : List ℤ) → count v (xs ++ ys) ≡ count v xs + count v ys
count-append v [] ys = omega arith
count-append v (x ∷ xs) ys = omega (arith, count-append v xs ys)

length-set : (xs : List ℤ) (i : ℕ) (w : ℤ) → length (set xs i w) ≡ length xs
length-set [] i w = refl
length-set (x ∷ xs) zero w = refl
length-set (x ∷ xs) (suc i) w = omega (arith, length-set xs i w)

count-set :
    (v : ℤ) (xs : List ℤ) (i : ℕ) (w d : ℤ)
    → i < length xs
    → count v (set xs i w) + hit (get_or xs i d) v ≡ count v xs + hit w v
count-set v [] i w d h = elim h [ ]
count-set v (x ∷ xs) zero w d h = omega arith
count-set v (x ∷ xs) (suc i) w d h = omega (arith, count-set v xs i w d)

get_or-set_self : (xs : List ℤ) (i : ℕ) (w d : ℤ) → i < length xs → get_or (set xs i w) i d ≡ w
get_or-set_self [] i w d h = elim h [ ]
get_or-set_self (x ∷ xs) zero w d h = refl
get_or-set_self (x ∷ xs) (suc i) w d h = get_or-set_self xs i w d (omega arith)

get_or-set_ne :
    (xs : List ℤ) (i j : ℕ) (w d : ℤ) → (i == j) ≡ false → get_or (set xs i w) j d ≡ get_or xs j d
get_or-set_ne [] i j w d h = refl
get_or-set_ne (x ∷ xs) zero zero w d h = cc
get_or-set_ne (x ∷ xs) zero (suc j) w d h = refl
get_or-set_ne (x ∷ xs) (suc i) zero w d h = refl
get_or-set_ne (x ∷ xs) (suc i) (suc j) w d h = get_or-set_ne xs i j w d (ground arith)

-- How often a handle is held, was closed, or was released to a caller.
abbrev pub total : ℤ → Handles → ℕ
total v h = count v h.slots + count v h.closed + count v h.released

-- How often a call hands a handle to an object.
abbrev pub acquired : ℤ → Op → ℕ
acquired v (constructs w) = hit w v
acquired v (resets_to i w) = hit w v
acquired v _ = 0

-- The objects that a call names exist.
abbrev pub Fits : Op → ℕ → Type 0
Fits (constructs w) n = Unit
Fits (move_constructs j) n = j < n
Fits (releases i) n = i < n
Fits (resets i) n = i < n
Fits (destroys i) n = i < n
Fits (resets_to i w) n = i < n
Fits (swaps i j) n = (i < n) × (j < n)
Fits (move_assigns i j) n = (i < n) × (j < n)

pub acquisitions : ℤ → List Op → ℕ
acquisitions v [] = 0
acquisitions v (op ∷ ops) = acquired v op + acquisitions v ops

module _ (invalid : ℤ) where
  hit_invalid : (v : ℤ) → v ≢ invalid → hit invalid v ≡ 0
  hit_invalid v ne = ground (arith, eqb_ℤ_iff invalid v)

  hit_not_valid : (v w : ℤ) → v ≢ invalid → valid invalid w ≡ false → hit w v ≡ 0
  hit_not_valid v w ne h = ground (arith, eqb_ℤ_iff w invalid, eqb_ℤ_iff w v)

  reset_to-total :
      (v : ℤ) (h : Handles) (i : ℕ) (w : ℤ)
      → v ≢ invalid
      → i < length h.slots
      → total v (reset_to invalid h i w) ≡ hit w v + total v h
  unfolding reset_to
  reset_to-total v h i w ne lt = elim (Bool-cases (valid invalid (value invalid h i))) [
    | inl e ↦ rw e (omega (arith, count-set v h.slots i w invalid))
    | inr e ↦ rw e (omega (arith, count-set v h.slots i w invalid, hit_not_valid v _ ne e))
  ]

  release-total :
      (v : ℤ) (h : Handles) (i : ℕ)
      → v ≢ invalid
      → i < length h.slots
      → total v (release invalid h i) ≡ total v h
  unfolding release
  release-total v h i ne lt = omega (arith, count-set v h.slots i invalid invalid, hit_invalid v ne)

  construct-total :
      (v : ℤ) (h : Handles) (w : ℤ) → total v (construct invalid h w) ≡ hit w v + total v h
  unfolding construct
  construct-total v h w = omega (arith, count-append v h.slots (w ∷ []))

  move_construct-total :
      (v : ℤ) (h : Handles) (j : ℕ)
      → v ≢ invalid
      → j < length h.slots
      → total v (move_construct invalid h j) ≡ total v h
  unfolding move_construct
  move_construct-total v h j ne lt =
      let w = get_or h.slots j invalid in
      omega (
        arith,
        count-set v h.slots j invalid invalid,
        hit_invalid v ne,
        count-append v (set h.slots j invalid) (w ∷ []),
      )

  get_or-set_copy :
      (xs : List ℤ) (i j : ℕ)
      → j < length xs
      → get_or (set xs j (get_or xs i invalid)) i invalid ≡ get_or xs i invalid
  get_or-set_copy xs i j lt = elim (Bool-cases (j == i)) [
    | inl e ↦ rw (← (==_iff j i).0 e) (get_or-set_self xs j _ invalid lt)
    | inr e ↦ get_or-set_ne xs j i _ invalid e
  ]

  swap-total :
      (v : ℤ) (h : Handles) (i j : ℕ)
      → i < length h.slots
      → j < length h.slots
      → total v (swap invalid h i j) ≡ total v h
  unfolding swap
  swap-total v h i j li lj =
      let a = get_or h.slots i invalid in
      let b = get_or h.slots j invalid in
      omega (
        arith,
        count-set v h.slots j a invalid,
        count-set v (set h.slots j a) i b invalid,
        length-set h.slots j a,
        ap (λ (x : ℤ). hit x v) (get_or-set_copy h.slots i j lj),
      )

  move_assign-total :
      (v : ℤ) (h : Handles) (i j : ℕ)
      → v ≢ invalid
      → i < length h.slots
      → j < length h.slots
      → total v (move_assign invalid h i j) ≡ total v h
  unfolding move_assign
  move_assign-total v h i j ne li lj =
      let w = get_or h.slots j invalid in
      let s = set h.slots j invalid in
      let old = get_or s i invalid in
      let moved = count-set v h.slots j invalid invalid lj in
      let stored = count-set v s i w invalid (omega (arith, length-set h.slots j invalid)) in
      elim (Bool-cases (valid invalid old)) [
        | inl e ↦ rw e (omega (arith, moved, stored, hit_invalid v ne))
        | inr e ↦ rw e (omega (arith, moved, stored, hit_invalid v ne, hit_not_valid v old ne e))
      ]

  step-total :
      (v : ℤ) (h : Handles) (op : Op)
      → v ≢ invalid
      → Fits op (length h.slots)
      → total v (step invalid h op) ≡ acquired v op + total v h
  unfolding step reset
  step-total v h (constructs w) ne f = construct-total v h w
  step-total v h (move_constructs j) ne f = omega (arith, move_construct-total v h j ne f)
  step-total v h (releases i) ne f = omega (arith, release-total v h i ne f)
  step-total v h (resets i) ne f =
      omega (arith, reset_to-total v h i invalid ne f, hit_invalid v ne)
  step-total v h (destroys i) ne f =
      omega (arith, reset_to-total v h i invalid ne f, hit_invalid v ne)
  step-total v h (resets_to i w) ne f = omega (arith, reset_to-total v h i w ne f)
  step-total v h (swaps i j) ne f = omega (arith, swap-total v h i j f.0 f.1)
  step-total v h (move_assigns i j) ne f = omega (arith, move_assign-total v h i j ne f.0 f.1)

  -- The objects that each call of a history names exist when it is made.
  abbrev pub AllFit : Handles → List Op → Type 0
  AllFit h [] = Unit
  AllFit h (op ∷ ops) = Fits op (length h.slots) × AllFit (step invalid h op) ops

  -- Over any history on existing objects, each valid handle is held, closed or released exactly as
  -- often in total as it was handed to an object: none is lost, and none is closed twice.
  pub run-total :
      (v : ℤ) (h : Handles) (ops : List Op)
      → v ≢ invalid
      → AllFit h ops
      → total v (run invalid h ops) ≡ acquisitions v ops + total v h
  unfolding run acquisitions
  run-total v h [] ne f = omega arith
  run-total v h (op ∷ ops) ne f =
      omega (arith, run-total v (step invalid h op) ops ne f.1, step-total v h op ne f.0)
