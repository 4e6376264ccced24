-- ===== src/Log/Stop/Laws.antt =====
-- What holds once `stop` has returned.
use ice_coroutines.Base.{
  ℕ, ◌+◌, ◌≤◌, ◌<◌, false, List, [], ◌++◌, map, append-nil, append_assoc, ◌≡◌, ◌≢◌, refl, sym, ap,
  ◌∙◌, arith,
}
use ice_coroutines.Log.Queue
use ice_coroutines.Log.Queue.{
  Item, awaited, ready, entry, set_limit, test_below, test_over, fetch_add, post, post_over, print,
  fetch_sub, complete, return,
}
use ice_coroutines.Log.Queue.Laws.{weights, behind, queue_lem}
use ice_coroutines.Log.Stop.{
  working, left, System, initial, check, by_logger, Step, calls, works, acquires_nothing, checks,
  stops, joins, skips, Trace, start, next,
}

pub left_ne-working : left ≢ working
left_ne-working e = ground arith

module _ (threads : ℕ) where
  -- The calls see a history of Log/Queue.
  trace-calls :
      (limit : ℕ) (m : System)
      → Trace threads (initial limit) m
      → Queue.Trace threads (Queue.initial limit) m.calls
  trace-calls limit m start = Queue.start
  trace-calls limit m (next {n} t (calls c s b)) = Queue.next (trace-calls limit n t) s
  trace-calls limit m (next {n} t (works c s w)) = Queue.next (trace-calls limit n t) s
  trace-calls limit m (next {n} t (acquires_nothing w l q)) = trace-calls limit n t
  trace-calls limit m (next {n} t (checks c)) = trace-calls limit n t
  trace-calls limit m (next {n} t (stops o)) = trace-calls limit n t
  trace-calls limit m (next {n} t (joins j a l)) = trace-calls limit n t
  trace-calls limit m (next {n} t (skips j a)) = trace-calls limit n t

  -- What the thread of the logger alone changes, and what is only added to.
  pub record Kept (m n : Queue.System) : Type 0 where
    pub logger : n.logger ≡ m.logger
    pub output : n.output ≡ m.output
    pub completed : n.completed ≡ m.completed
    pub count : m.count ≤ n.count
    pub queue : (more : List Item) × (n.queue ≡ m.queue ++ more)

  keeps :
      (m n : Queue.System)
      → n.logger ≡ m.logger
      → n.output ≡ m.output
      → n.completed ≡ m.completed
      → m.count ≤ n.count
      → n.queue ≡ m.queue
      → Kept m n
  keeps m n l o c k q = record {
    logger = l;
    output = o;
    completed = c;
    count = k;
    queue = ([], q ∙ sym (append-nil m.queue));
  }

  Kept-trans : (m n o : Queue.System) → Kept m n → Kept n o → Kept m o
  Kept-trans m n o a b = record {
    logger = b.logger ∙ a.logger;
    output = b.output ∙ a.output;
    completed = b.completed ∙ a.completed;
    count = omega (arith, a.count, b.count);
    queue = (
      a.queue.0 ++ b.queue.0,
      b.queue.1 ∙ ap (λ q. q ++ b.queue.0) a.queue.1 ∙ append_assoc m.queue a.queue.0 b.queue.0,
    );
  }

  step-Kept :
      (m n : Queue.System) (s : Queue.Step threads m n) → by_logger threads s ≡ false → Kept m n
  unfolding by_logger
  step-Kept m n (set_limit l) b = keeps m n refl refl refl (omega arith) refl
  step-Kept m n (test_below c l) b = keeps m n refl refl refl (omega arith) refl
  step-Kept m n (test_over c l) b = keeps m n refl refl refl (omega arith) refl
  step-Kept m n (fetch_add k a) b = keeps m n refl refl refl (omega arith) refl
  step-Kept m n (post e k a) b = record {
    logger = refl;
    output = refl;
    completed = refl;
    count = omega arith;
    queue = (_, refl);
  }
  step-Kept m n (post_over e k a) b = record {
    logger = refl;
    output = refl;
    completed = refl;
    count = omega arith;
    queue = (_, refl);
  }
  step-Kept m n (print x xs l q) b = ground arith
  step-Kept m n (fetch_sub e l) b = ground arith
  step-Kept m n (complete e l) b = ground arith
  step-Kept m n (return before e after w c) b = keeps m n refl refl refl (omega arith) refl

  -- Off its work, the thread is in no coroutine; and it is joined behind `run` only.
  record Inv (m : System) : Type 0 where
    rests : m.running ≢ working → m.calls.logger ≡ ready
    over : m.joinable ≡ false → m.running ≡ left

  step-Inv : (m n : System) → Step threads m n → Inv m → Inv n
  unfolding check
  step-Inv m n (calls c s b) i = record {
    rests = λ w. (step-Kept m.calls c s b).logger ∙ i.rests w;
    over = i.over;
  }
  step-Inv m n (works c s w) i = record { rests = λ v. absurd (v w); over = i.over }
  step-Inv m n (acquires_nothing w l q) i = record { rests = λ v. l; over = ground (arith, i.over) }
  step-Inv m n (checks c) i = record {
    rests = λ v. i.rests (λ w. ground (arith, c));
    over = ground (arith, i.over);
  }
  step-Inv m n (stops o) i = record { rests = i.rests; over = i.over }
  step-Inv m n (joins j a l) i = record { rests = i.rests; over = λ h. l }
  step-Inv m n (skips j a) i = record { rests = i.rests; over = i.over }

  trace-Inv : (limit : ℕ) (m : System) → Trace threads (initial limit) m → Inv m
  trace-Inv limit m start = record { rests = λ v. refl; over = λ h. ground arith }
  trace-Inv limit m (next {n} t s) = step-Inv n m s (trace-Inv limit n t)

  -- Behind `run` the thread stays there, and only the calls go on.
  pub record Left (m n : System) : Type 0 where
    pub gone : n.running ≡ left
    pub kept : Kept m.calls n.calls

  step-Left : (m n o : System) → Step threads n o → Left m n → Left m o
  step-Left m n o (calls c s b) l = record {
    gone = l.gone;
    kept = Kept-trans m.calls n.calls c l.kept (step-Kept n.calls c s b);
  }
  step-Left m n o (works c s w) l = absurd (left_ne-working (sym l.gone ∙ w))
  step-Left m n o (acquires_nothing w r q) l = absurd (left_ne-working (sym l.gone ∙ w))
  step-Left m n o (checks c) l = ground (arith, l.gone)
  step-Left m n o (stops s) l = record { gone = l.gone; kept = l.kept }
  step-Left m n o (joins j a r) l = record { gone = l.gone; kept = l.kept }
  step-Left m n o (skips j a) l = record { gone = l.gone; kept = l.kept }

  pub trace-Left : (m n : System) → m.running ≡ left → Trace threads m n → Left m n
  trace-Left m n e start = record {
    gone = e;
    kept = keeps m.calls m.calls refl refl refl (omega arith) refl;
  }
  trace-Left m n e (next {n = k} t s) = step-Left m k n s (trace-Left m k e t)

  -- Once `stop` has returned, the thread of the logger is in no coroutine, the entries printed and those that
  -- wait are, in this order, the entries posted, and `g_count` is that of the calls about to post and of
  -- the entries that wait. Whatever is called afterwards, nothing more is printed, no call at the limit gets its
  -- `completed`, and `g_count` never falls.
  pub stopped_lem :
      (limit : ℕ) (m n : System)
      → 0 < threads
      → Trace threads (initial limit) m
      → m.joinable ≡ false
      → Trace threads m n
      → (m.calls.logger ≡ ready)
        × (m.calls.output ++ map entry m.calls.queue ≡ m.calls.posted)
        × (m.calls.count ≡ m.calls.added + weights m.calls.queue)
        × (n.calls.output ≡ m.calls.output)
        × (n.calls.completed ≡ m.calls.completed)
        × (m.calls.count ≤ n.calls.count)
  unfolding behind weights
  stopped_lem limit m n p t j u =
      let i = trace-Inv limit m t in
      let ready_there = i.rests (λ w. left_ne-working (sym (i.over j) ∙ w)) in
      let q = queue_lem threads limit m.calls p (trace-calls limit m t) in
      let k = (trace-Left m n (i.over j) u).kept in
      (ready_there, q.0, ground (arith, q.1, ready_there), k.output, k.completed, k.count)
