-- ===== src/Context/Order.antt =====
-- `run` resumes what is posted, in order.
use ice_coroutines.Base.{
  post-Delivered, resume-Delivered, ℕ, Bool, List, [], ◌∷◌, ◌++◌, append-nil, ◌≡◌, refl, ap, sym,
  ◌∙◌, arith,
}
use ice_coroutines.Context.{
  Running, acquiring, checking, predicate, deciding, blocked, resuming, Context, entered, acquired,
  wake, check, decide, Step, post, set_stop, notify, spurious, acquire_first, check_stop,
  acquire_again, decide_stop, wait, resume, finish, enter, Trace, start, next,
}

-- The schedules that `run` has taken and not resumed yet.
unfoldable pub held : Running → List ℕ
held (resuming xs) = xs
held _ = []

-- Everything posted is resumed, held or in the queue, in this order.
abbrev Inv : Context → Type 0
Inv c = c.resumed ++ (held c.running ++ c.queue) ≡ c.posted

held-wake : (r : Running) → held (wake r) ≡ held r
unfolding held wake
held-wake r = ground arith

held-check : (b : Bool) → held (check b) ≡ []
unfolding held check
held-check b = ground arith

held-decide : (b : Bool) → held (decide b) ≡ []
unfolding held decide
held-decide b = ground arith

held-acquired : (q : List ℕ) (r : Running) → held r ≡ [] → held (acquired q r) ≡ q
unfolding held acquired
held-acquired [] r e = e
held-acquired (x ∷ xs) r e = refl

-- A step that resumes nothing and keeps what is held and queued.
kept :
    (c : Context) (r : Running) (q : List ℕ)
    → held r ++ q ≡ held c.running ++ c.queue
    → Inv c
    → c.resumed ++ (held r ++ q) ≡ c.posted
kept c r q e i = ap (λ t. c.resumed ++ t) e ∙ i

acquired-kept :
    (c : Context) (before empty : Running)
    → c.running ≡ before
    → held before ≡ []
    → held empty ≡ []
    → held (acquired c.queue empty) ++ [] ≡ held c.running ++ c.queue
acquired-kept c before empty e hb he =
    append-nil (held (acquired c.queue empty))
    ∙ held-acquired c.queue empty he
    ∙ ap (λ l. l ++ c.queue) (sym hb ∙ ap held (sym e))

step-Inv : (c d : Context) → Step c d → Inv c → Inv d
unfolding held
step-Inv c d (post s) i = post-Delivered c.resumed (held c.running) c.queue c.posted s i
step-Inv c d (set_stop b) i = i
step-Inv c d (notify n e) i =
    kept c (wake c.running) c.queue (ap (λ l. l ++ c.queue) (held-wake c.running)) i
step-Inv c d spurious i =
    kept c (wake c.running) c.queue (ap (λ l. l ++ c.queue) (held-wake c.running)) i
step-Inv c d (acquire_first e) i =
    kept c (acquired c.queue checking) [] (acquired-kept c acquiring checking e refl refl) i
step-Inv c d (check_stop e) i =
    kept c (check c.stop) c.queue (ap (λ l. l ++ c.queue) (held-check c.stop ∙ ap held (sym e))) i
step-Inv c d (acquire_again e) i =
    kept c (acquired c.queue deciding) [] (acquired-kept c predicate deciding e refl refl) i
step-Inv c d (decide_stop e) i =
    kept c (decide c.stop) c.queue (ap (λ l. l ++ c.queue) (held-decide c.stop ∙ ap held (sym e))) i
step-Inv c d (wait e) i = kept c blocked c.queue (ap (λ r. held r ++ c.queue) (sym e)) i
step-Inv c d (resume x xs e) i =
    resume-Delivered c.resumed xs c.queue c.posted x
      (kept c (resuming (x ∷ xs)) c.queue (ap (λ r. held r ++ c.queue) (sym e)) i)
step-Inv c d (finish e) i = kept c acquiring c.queue (ap (λ r. held r ++ c.queue) (sym e)) i
step-Inv c d (enter e) i = kept c acquiring c.queue (ap (λ r. held r ++ c.queue) (sym e)) i

trace-Inv : (c : Context) → Trace entered c → Inv c
unfolding held
trace-Inv c start = refl
trace-Inv c (next {d} t s) = step-Inv d c s (trace-Inv d t)

-- In every interleaving of the thread in `run` with those that post, stop and notify, the schedules
-- resumed so far, those that `run` holds and those in the list are, in this order, the schedules
-- posted: none is lost, none is resumed twice, and they are resumed in the order of the posts.
pub resumed-posted :
    (c : Context) → Trace entered c → c.resumed ++ (held c.running ++ c.queue) ≡ c.posted
resumed-posted c t = trace-Inv c t
