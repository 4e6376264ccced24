-- ===== src/Context/Pool/Laws.antt =====
-- Several threads share the work of a context, src/ice/include/ice/context.hpp.
use ice_coroutines.Base.{
  ℕ, zero, suc, ◌+◌, ◌==◌, ◌≤◌, Bool, true, false, ◌⊎◌, inl, inr, List, [], ◌∷◌, ◌++◌, map, ◌≡◌,
  refl, sym, ap, arith, if◌then◌else◌,
}
use ice_coroutines.Context.Pool.{
  Place, locking, checking, predicate, deciding, willing, blocked, woken, resuming, Pool,
  all_locking, entered, holds, any, acquired, check, decide, wake, Step, post, set_stop, notify_one,
  notify_none, notify_all, spurious, lock, check_stop, relock, acquire_again, decide_stop, wait,
  resume, finish, Trace, start, next,
}

-- How often a schedule is in a list.
unfoldable pub count : ℕ → List ℕ → ℕ
count x [] = 0
count x (y ∷ ys) = (if x == y then 1 else 0) + count x ys

count-append : (x : ℕ) (ys zs : List ℕ) → count x (ys ++ zs) ≡ count x ys + count x zs
unfolding count
count-append x [] zs = omega arith
count-append x (y ∷ ys) zs = omega (arith, count-append x ys zs)

-- The schedules that a thread has taken and not resumed yet.
unfoldable pub taken : Place → List ℕ
taken (resuming xs) = xs
taken _ = []

-- How often the threads have taken a schedule, and how many of them have the mutex.
unfoldable pub held : ℕ → List Place → ℕ
unfolding taken count
held x [] = 0
held x (p ∷ ps) = count x (taken p) + held x ps

unfoldable pub holders : List Place → ℕ
unfolding holds
holders [] = 0
holders (p ∷ ps) = (if holds p then 1 else 0) + holders ps

held-append : (x : ℕ) (ps qs : List Place) → held x (ps ++ qs) ≡ held x ps + held x qs
unfolding held
held-append x [] qs = omega arith
held-append x (p ∷ ps) qs = omega (arith, held-append x ps qs)

holders-append : (ps qs : List Place) → holders (ps ++ qs) ≡ holders ps + holders qs
unfolding holders
holders-append [] qs = omega arith
holders-append (p ∷ ps) qs = omega (arith, holders-append ps qs)

holders-none : (ps : List Place) → any holds ps ≡ false → holders ps ≡ 0
unfolding any holders
holders-none [] h = refl
holders-none (p ∷ ps) h = ground (arith, holders-none ps)

-- One thread of several, by place.
held-at :
    (x : ℕ) (before after : List Place) (p : Place)
    → held x (before ++ p ∷ after) ≡ held x before + (count x (taken p) + held x after)
unfolding held
held-at x before after p = held-append x before (p ∷ after)

holders-at :
    (before after : List Place) (p : Place)
    → holders (before ++ p ∷ after) ≡ holders before + ((if holds p then 1 else 0) + holders after)
unfolding holders
holders-at before after p = holders-append before (p ∷ after)

held-wake : (x : ℕ) (ps : List Place) → held x (map wake ps) ≡ held x ps
unfolding held wake taken
held-wake x [] = refl
held-wake x (p ∷ ps) = ground (arith, held-wake x ps)

holders-wake : (ps : List Place) → holders (map wake ps) ≡ holders ps
unfolding holders wake holds
holders-wake [] = refl
holders-wake (p ∷ ps) = ground (arith, holders-wake ps)

count-acquired :
    (x : ℕ) (q : List ℕ) (p : Place) → taken p ≡ [] → count x (taken (acquired q p)) ≡ count x q
unfolding acquired taken
count-acquired x [] p h = ap (count x) h
count-acquired x (y ∷ q) p h = refl

taken-check : (b : Bool) → taken (check b) ≡ []
unfolding taken check
taken-check b = ground arith

taken-decide : (b : Bool) → taken (decide b) ≡ []
unfolding taken decide
taken-decide b = ground arith

-- The schedules posted are those resumed, those that a thread has taken and those in the list.
abbrev Counts : ℕ → Pool → Type 0
Counts x m = count x m.posted ≡ count x m.resumed + (held x m.threads + count x m.queue)

module _ (x : ℕ) (m : Pool) (before after : List Place) (p p' : Place) where
  -- A thread changes its place, and what it has taken changes with the list.
  moved :
      (q : List ℕ)
      → m.threads ≡ before ++ p ∷ after
      → count x (taken p) + count x m.queue ≡ count x (taken p') + count x q
      → Counts x m
      → Counts x (record m { queue = q; threads = before ++ p' ∷ after })
  moved q e same i =
      omega (arith, ap (held x) e, held-at x before after p, held-at x before after p')

step-Counts : (x : ℕ) (m n : Pool) → Step m n → Counts x m → Counts x n
unfolding count taken
step-Counts x m n (post s) i =
    omega (arith, count-append x m.queue (s ∷ []), count-append x m.posted (s ∷ []))
step-Counts x m n (set_stop b) i = i
step-Counts x m n (notify_one k before after e h) i =
    moved x m before after blocked woken m.queue h refl i
step-Counts x m n (notify_none k e h) i = i
step-Counts x m n (notify_all k e) i = omega (arith, held-wake x m.threads)
step-Counts x m n (spurious before after h) i =
    moved x m before after blocked woken m.queue h refl i
step-Counts x m n (lock before after h f) i =
    moved x m before after locking (acquired m.queue checking) [] h
      (omega (arith, count-acquired x m.queue checking refl)) i
step-Counts x m n (check_stop before after h) i =
    moved x m before after checking (check m.stop) m.queue h
      (ap (λ l. count x l + count x m.queue) (sym (taken-check m.stop))) i
step-Counts x m n (relock before after h f) i =
    moved x m before after woken predicate m.queue h refl i
step-Counts x m n (acquire_again before after h) i =
    moved x m before after predicate (acquired m.queue deciding) [] h
      (omega (arith, count-acquired x m.queue deciding refl)) i
step-Counts x m n (decide_stop before after h) i =
    moved x m before after deciding (decide m.stop) m.queue h
      (ap (λ l. count x l + count x m.queue) (sym (taken-decide m.stop))) i
step-Counts x m n (wait before after h) i = moved x m before after willing blocked m.queue h refl i
step-Counts x m n (resume before after y ys h) i = omega (
  arith,
  ap (held x) h,
  held-at x before after (resuming (y ∷ ys)),
  held-at x before after (resuming ys),
  count-append x m.resumed (y ∷ []),
)
step-Counts x m n (finish before after h) i =
    moved x m before after (resuming []) locking m.queue h refl i

-- At most one thread has the mutex.
abbrev Exclusive : Pool → Type 0
Exclusive m = holders m.threads ≤ 1

-- A thread that has the mutex, or that takes it while it is free, is then the only one.
kept :
    (m : Pool) (before after : List Place) (p p' : Place)
    → m.threads ≡ before ++ p ∷ after
    → (any holds m.threads ≡ false) ⊎ ((holds p ≡ true) ⊎ (holds p' ≡ false))
    → Exclusive m
    → holders (before ++ p' ∷ after) ≤ 1
kept m before after p p' e c i = ground (
  arith,
  ap holders e,
  holders-at before after p,
  holders-at before after p',
  holders-none m.threads,
)

step-Exclusive : (m n : Pool) → Step m n → Exclusive m → Exclusive n
unfolding holds
step-Exclusive m n (post s) i = i
step-Exclusive m n (set_stop b) i = i
step-Exclusive m n (notify_one k before after e h) i =
    kept m before after blocked woken h (inr (inr refl)) i
step-Exclusive m n (notify_none k e h) i = i
step-Exclusive m n (notify_all k e) i = omega (arith, holders-wake m.threads)
step-Exclusive m n (spurious before after h) i =
    kept m before after blocked woken h (inr (inr refl)) i
step-Exclusive m n (lock before after h f) i =
    kept m before after locking (acquired m.queue checking) h (inl f) i
step-Exclusive m n (check_stop before after h) i =
    kept m before after checking (check m.stop) h (inr (inl refl)) i
step-Exclusive m n (relock before after h f) i = kept m before after woken predicate h (inl f) i
step-Exclusive m n (acquire_again before after h) i =
    kept m before after predicate (acquired m.queue deciding) h (inr (inl refl)) i
step-Exclusive m n (decide_stop before after h) i =
    kept m before after deciding (decide m.stop) h (inr (inl refl)) i
step-Exclusive m n (wait before after h) i =
    kept m before after willing blocked h (inr (inr refl)) i
step-Exclusive m n (resume before after y ys h) i =
    kept m before after (resuming (y ∷ ys)) (resuming ys) h (inr (inr refl)) i
step-Exclusive m n (finish before after h) i =
    kept m before after (resuming []) locking h (inr (inr refl)) i

trace-Exclusive : (m n : Pool) → Trace m n → Exclusive m → Exclusive n
trace-Exclusive m n start i = i
trace-Exclusive m n (next {n = k} t s) i = step-Exclusive k n s (trace-Exclusive m k t i)

trace-Counts : (x : ℕ) (m n : Pool) → Trace m n → Counts x m → Counts x n
trace-Counts x m n start i = i
trace-Counts x m n (next {n = k} t s) i = step-Counts x k n s (trace-Counts x m k t i)

-- Threads that are all before their first `lock.lock()`.
held-entered : (x n : ℕ) → held x (all_locking n) ≡ 0
unfolding held taken count all_locking
held-entered x zero = refl
held-entered x (suc n) = omega (arith, held-entered x n)

holders-entered : (n : ℕ) → holders (all_locking n) ≡ 0
unfolding holders holds all_locking
holders-entered zero = refl
holders-entered (suc n) = omega (arith, holders-entered n)

-- Whatever `post`, `stop`, the notifications and any number of threads in `run` do in whatever order,
-- every schedule has been posted exactly as often as it has been resumed, waits in a thread that took
-- it, and is in the list, taken together: none is lost and none is resumed twice. At no time have two
-- threads the mutex.
pub pool-accounted :
    (threads x : ℕ) (m : Pool)
    → Trace (entered threads) m
    → (count x m.posted ≡ count x m.resumed + (held x m.threads + count x m.queue))
      × (holders m.threads ≤ 1)
unfolding count
pool-accounted threads x m t = (
  trace-Counts x (entered threads) m t (omega (arith, held-entered x threads)),
  trace-Exclusive (entered threads) m t (omega (arith, holders-entered threads)),
)
