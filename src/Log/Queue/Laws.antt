-- ===== src/Log/Queue/Laws.antt =====
-- The count of the queue stays near its limit, and what is printed is what was posted.
use ice_coroutines.Base.{
  ℕ, ◌+◌, ◌≤◌, ◌<◌, List, [], ◌∷◌, ◌++◌, map, map-append, append_assoc, Mem, Subset, Subset-refl,
  Subset-trans, nil-subset, cons-subset, subset-append_left, subset-append_right, ◌≡◌, refl, sym,
  ap, subst, ◌∙◌, arith,
}
use ice_coroutines.Log.Queue.{
  Item, counted, awaited, entry, Logger, ready, printed, System, initial, Step, set_limit,
  test_below, test_over, fetch_add, post, post_over, print, fetch_sub, complete, return, Trace,
  start, next,
}

-- The items that `g_count` counts.
unfoldable pub weight : Item → ℕ
weight (counted e) = 1
weight (awaited e) = 0

unfoldable pub weights : List Item → ℕ
unfolding weight
weights [] = 0
weights (x ∷ xs) = weight x + weights xs

-- The one that the logger has printed and not left yet.
unfoldable pub behind : Logger → List Item
behind ready = []
behind (printed x) = x ∷ []

weights-append : (xs ys : List Item) → weights (xs ++ ys) ≡ weights xs + weights ys
unfolding weights
weights-append [] ys = omega arith
weights-append (x ∷ xs) ys = ground (arith, weights-append xs ys)

module _ (threads : ℕ) where
  -- `g_count` counts the calls behind their addition, and what the logger has still to leave.
  abbrev Counts : System → Type 0
  Counts m = m.count ≡ m.added + (weights m.queue + weights (behind m.logger))

  step-Counts : (m n : System) → Step threads m n → Counts m → Counts n
  unfolding weights weight behind
  step-Counts m n (set_limit l) i = i
  step-Counts m n (test_below f c) i = i
  step-Counts m n (test_over f c) i = i
  step-Counts m n (fetch_add k t) i = omega arith
  step-Counts m n (post e k t) i = ground (arith, weights-append m.queue (counted e ∷ []))
  step-Counts m n (post_over e k t) i = ground (arith, weights-append m.queue (awaited e ∷ []))
  step-Counts m n (print x xs l q) i = ground arith
  step-Counts m n (fetch_sub e l) i = ground arith
  step-Counts m n (complete e l) i = ground arith
  step-Counts m n (return before e after w c) i = i

  -- Each call behind its test may still add to the count.
  abbrev Bounded : System → Type 0
  Bounded m = (m.count + m.tested < m.highest + threads) × (m.limit ≤ m.highest)

  step-Bounded : (m n : System) → Step threads m n → Bounded m → Bounded n
  step-Bounded m n (set_limit l) i = ground arith
  step-Bounded m n (test_below f c) i = (omega arith, i.1)
  step-Bounded m n (test_over f c) i = i
  step-Bounded m n (fetch_add k t) i = (omega arith, i.1)
  step-Bounded m n (post e k t) i = i
  step-Bounded m n (post_over e k t) i = i
  step-Bounded m n (print x xs l q) i = i
  step-Bounded m n (fetch_sub e l) i = (omega arith, i.1)
  step-Bounded m n (complete e l) i = i
  step-Bounded m n (return before e after w c) i = i

  trace-Bounded :
      (limit : ℕ) (m : System) → 0 < threads → Trace threads (initial limit) m → Bounded m
  trace-Bounded limit m pos start = (omega arith, omega arith)
  trace-Bounded limit m pos (next {n} t s) = step-Bounded n m s (trace-Bounded limit n pos t)

  trace-Counts : (limit : ℕ) (m : System) → Trace threads (initial limit) m → Counts m
  unfolding weights behind
  trace-Counts limit m start = omega arith
  trace-Counts limit m (next {n} t s) = step-Counts n m s (trace-Counts limit n t)

  weights-bounded :
      (limit : ℕ) (m : System)
      → 0 < threads
      → Trace threads (initial limit) m
      → weights m.queue < m.highest + threads
  weights-bounded limit m p t =
      let c = trace-Counts limit m t in let b = (trace-Bounded limit m p t).0 in omega arith

  abbrev Delivered : System → Type 0
  Delivered m = m.output ++ map entry m.queue ≡ m.posted

  posted :
      (m : System) (x : Item)
      → Delivered m
      → m.output ++ map entry (m.queue ++ x ∷ []) ≡ m.posted ++ entry x ∷ []
  posted m x i =
      ap (λ l. m.output ++ l) (map-append entry m.queue (x ∷ []))
      ∙ sym (append_assoc m.output (map entry m.queue) (entry x ∷ []))
      ∙ ap (λ l. l ++ entry x ∷ []) i

  step-Delivered : (m n : System) → Step threads m n → Delivered m → Delivered n
  step-Delivered m n (set_limit l) i = i
  step-Delivered m n (test_below f c) i = i
  step-Delivered m n (test_over f c) i = i
  step-Delivered m n (fetch_add k t) i = i
  step-Delivered m n (post e k t) i = posted m (counted e) i
  step-Delivered m n (post_over e k t) i = posted m (awaited e) i
  step-Delivered m n (print x xs l q) i =
      append_assoc m.output (entry x ∷ []) (map entry xs)
      ∙ ap (λ y. m.output ++ map entry y) (sym q)
      ∙ i
  step-Delivered m n (fetch_sub e l) i = i
  step-Delivered m n (complete e l) i = i
  step-Delivered m n (return before e after w c) i = i

  trace-Delivered : (limit : ℕ) (m : System) → Trace threads (initial limit) m → Delivered m
  trace-Delivered limit m start = refl
  trace-Delivered limit m (next {n} t s) = step-Delivered n m s (trace-Delivered limit n t)

  -- However the calls of several threads interleave, the entries printed and those that wait are, in
  -- this order, the entries posted. The count is exactly that of the calls that have added to it and
  -- not posted, of the entries that wait, and of the one that the logger has printed and not left,
  -- where each of these was below the limit. And fewer entries of calls below the limit wait than the
  -- highest limit so far and the number of threads together: the test of the limit and the addition to
  -- the count are two steps, so each thread may exceed the limit once. Entries of calls at the limit wait
  -- beside them, and are neither counted nor bounded here.
  pub queue_lem :
      (limit : ℕ) (m : System)
      → 0 < threads
      → Trace threads (initial limit) m
      → (m.output ++ map entry m.queue ≡ m.posted)
        × (m.count ≡ m.added + (weights m.queue + weights (behind m.logger)))
        × (weights m.queue < m.highest + threads)
  queue_lem limit m p t =
      (trace-Delivered limit m t, trace-Counts limit m t, weights-bounded limit m p t)

  record Printed (m : System) : Type 0 where
    completes : Subset m.completed m.output
    returns : Subset m.returned m.output
    leaves : Subset (map entry (behind m.logger)) m.output

  step-Printed : (m n : System) → Step threads m n → Printed m → Printed n
  unfolding behind
  step-Printed m n (set_limit l) p = record {
    completes = p.completes;
    returns = p.returns;
    leaves = p.leaves;
  }
  step-Printed m n (test_below f c) p = record {
    completes = p.completes;
    returns = p.returns;
    leaves = p.leaves;
  }
  step-Printed m n (test_over f c) p = record {
    completes = p.completes;
    returns = p.returns;
    leaves = p.leaves;
  }
  step-Printed m n (fetch_add k t) p = record {
    completes = p.completes;
    returns = p.returns;
    leaves = p.leaves;
  }
  step-Printed m n (post e k t) p = record {
    completes = p.completes;
    returns = p.returns;
    leaves = p.leaves;
  }
  step-Printed m n (post_over e k t) p = record {
    completes = p.completes;
    returns = p.returns;
    leaves = p.leaves;
  }
  step-Printed m n (print x xs l q) p =
      let more = subset-append_left m.output (entry x ∷ []) in
      record {
        completes = Subset-trans p.completes more;
        returns = Subset-trans p.returns more;
        leaves = subset-append_right m.output (entry x ∷ []);
      }
  step-Printed m n (fetch_sub e l) p = record {
    completes = p.completes;
    returns = p.returns;
    leaves = nil-subset m.output;
  }
  step-Printed m n (complete e l) p =
      let left = subst (λ k. Subset (map entry (behind k)) m.output) l p.leaves in
      record {
        completes = cons-subset.1 ((cons-subset.0 left).0, p.completes);
        returns = p.returns;
        leaves = nil-subset m.output;
      }
  step-Printed m n (return before e after w c) p = record {
    completes = p.completes;
    returns = cons-subset.1 (p.completes e c, p.returns);
    leaves = p.leaves;
  }

  trace-Printed : (limit : ℕ) (m : System) → Trace threads (initial limit) m → Printed m
  unfolding behind
  trace-Printed limit m start = record {
    completes = Subset-refl [];
    returns = Subset-refl [];
    leaves = Subset-refl [];
  }
  trace-Printed limit m (next {n} t s) = step-Printed n m s (trace-Printed limit n t)

  -- A call at the limit returns only behind the print of its entry.
  pub returned-printed :
      (limit : ℕ) (m : System) (e : ℕ)
      → Trace threads (initial limit) m
      → Mem e m.returned
      → Mem e m.output
  returned-printed limit m e t r = (trace-Printed limit m t).returns e r
