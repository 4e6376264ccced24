-- ===== src/Log/Stop/Strands.antt =====
-- A call at the limit that comes too late for the thread of the logger.
use ice_coroutines.Base.{
  ℕ, suc, true, false, [], ◌∷◌, ◌++◌, Mem, mem-cons_self, mem-cons_of_mem, mem-middle, ◌≡◌, refl,
  sym, subst, ◌∙◌,
}
use ice_coroutines.Log.Queue
use ice_coroutines.Log.Queue.{
  Item, awaited, ready, entry, set_limit, test_below, test_over, fetch_add, post, post_over, print,
  fetch_sub, complete, return,
}
use ice_coroutines.Log.Stop.Laws.{left_ne-working, trace-Left}
use ice_coroutines.Log.Stop.{
  checking, left, outside, System, check, by_logger, calls, works, acquires_nothing, checks, stops,
  joins, skips, Trace, start, next,
}

-- What becomes of a call at the limit that posts its entry before a `stop`, where the thread has found its
-- list empty before.
abbrev pub stranded : ℕ → ℕ → System → System
stranded e k m = record m {
  calls = record m.calls {
    over = k;
    waiting = e ∷ m.calls.waiting;
    queue = m.calls.queue ++ awaited e ∷ [];
    posted = m.calls.posted ++ e ∷ [];
  };
  running = left;
  stop = true;
  joinable = false;
  stopper = outside;
}

module _ (threads : ℕ) where
  -- A call that waits, and whose `completed` is not set, waits on.
  step-Waits :
      (m n : Queue.System) (e : ℕ)
      → Queue.Step threads m n
      → ¬ Mem e m.completed
      → Mem e m.waiting
      → Mem e n.waiting
  step-Waits m n e (set_limit l) c w = w
  step-Waits m n e (test_below f l) c w = w
  step-Waits m n e (test_over f l) c w = w
  step-Waits m n e (fetch_add k a) c w = w
  step-Waits m n e (post d k a) c w = w
  step-Waits m n e (post_over d k a) c w = mem-cons_of_mem d w
  step-Waits m n e (print x xs l q) c w = w
  step-Waits m n e (fetch_sub d l) c w = w
  step-Waits m n e (complete d l) c w = w
  step-Waits m n e (return before d after h r) c w =
      mem-middle before after (λ f. c (subst (λ x. Mem x m.completed) (sym f) r))
        (subst (Mem e) h w)

  trace-Waits :
      (m n : System) (e : ℕ)
      → m.running ≡ left
      → ¬ Mem e m.calls.completed
      → Mem e m.calls.waiting
      → Trace threads m n
      → Mem e n.calls.waiting
  trace-Waits m n e l c w start = w
  trace-Waits m n e l c w (next {n = k} t (calls d s b)) =
      step-Waits k.calls d e s
        (λ h. c (subst (Mem e) (trace-Left threads m k l t).kept.completed h))
        (trace-Waits m k e l c w t)
  trace-Waits m n e l c w (next {n = k} t (works d s r)) =
      absurd (left_ne-working (sym (trace-Left threads m k l t).gone ∙ r))
  trace-Waits m n e l c w (next {n = k} t (acquires_nothing r f q)) = trace-Waits m k e l c w t
  trace-Waits m n e l c w (next {n = k} t (checks r)) = trace-Waits m k e l c w t
  trace-Waits m n e l c w (next {n = k} t (stops o)) = trace-Waits m k e l c w t
  trace-Waits m n e l c w (next {n = k} t (joins j a r)) = trace-Waits m k e l c w t
  trace-Waits m n e l c w (next {n = k} t (skips j a)) = trace-Waits m k e l c w t

  stranded-reached :
      (m : System) (e k : ℕ)
      → m.running ≡ checking
      → m.stopper ≡ outside
      → m.joinable ≡ true
      → m.calls.over ≡ suc k
      → Trace threads m (stranded e k m)
  unfolding check by_logger
  stranded-reached m e k r o j w =
      next (next (next (next start (calls _ (post_over e k w) refl)) (stops o)) (checks r))
        (joins refl j refl)

  -- Wherever the thread is at its test of `stop_`, with no call of `stop` so far, and a call has found the count at
  -- the limit, there are steps on which this call posts its entry, which none has completed, then `stop` is
  -- called, and returns; and from then on, whatever follows, nothing is printed and the call waits.
  pub stop-Strands :
      (m : System) (e k : ℕ)
      → m.running ≡ checking
      → m.stopper ≡ outside
      → m.joinable ≡ true
      → m.calls.over ≡ suc k
      → ¬ Mem e m.calls.completed
      → Trace threads m (stranded e k m)
        × ((n : System)
            → Trace threads (stranded e k m) n
            → (n.calls.output ≡ m.calls.output) × Mem e n.calls.waiting)
  stop-Strands m e k r o j w c = (
    stranded-reached m e k r o j w,
    λ n t. (
      (trace-Left threads (stranded e k m) n refl t).kept.output,
      trace-Waits (stranded e k m) n e refl c mem-cons_self t,
    ),
  )
