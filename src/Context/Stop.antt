-- ===== src/Context/Stop.antt =====
-- `stop` of src/ice/include/ice/context.hpp and a `post` in front of it, where the thread of `run` is
-- behind an `acquire` that gave nothing.
use ice_coroutines.Base.{
  ℕ, suc, true, List, [], ◌∷◌, ◌++◌, append-nil, append_assoc, ◌≡◌, refl, sym, ap, subst, ◌∙◌,
  arith,
}
use ice_coroutines.Context.{
  checking, returned, resuming, Context, wake, acquired, check, post, set_stop, notify, spurious,
  acquire_first, check_stop, acquire_again, decide_stop, wait, resume, finish, enter, Trace, start,
  next,
}

-- What a context becomes by a `post`, a `stop` behind it and the test of `stop_`.
abbrev pub overtaken : ℕ → Context → Context
overtaken s c = record c {
  queue = c.queue ++ s ∷ [];
  posted = c.posted ++ s ∷ [];
  notices = suc c.notices;
  stop = true;
  running = returned;
}

overtaken-reached : (c : Context) (s : ℕ) → c.running ≡ checking → Trace c (overtaken s c)
unfolding check wake
overtaken-reached c s e =
    next (next (next (next start (post s)) (notify c.notices refl)) (set_stop true))
      (check_stop (ap wake e))

-- No step of the history is a further call of `run`.
unfoldable pub NeverEnters : {c d : Context} → Trace c d → Type 0
NeverEnters start = Unit
NeverEnters (next t (enter h)) = ⊥
NeverEnters (next t _) = NeverEnters t

-- A context that `run` has left: nothing more is resumed, and the list only grows.
abbrev Left : Context → Context → Type 0
Left d e =
    (more : List ℕ) × (e.running ≡ returned) × (e.resumed ≡ d.resumed) × (e.queue ≡ d.queue ++ more)

trace-Left : (d e : Context) (t : Trace d e) → NeverEnters t → d.running ≡ returned → Left d e
unfolding NeverEnters wake
trace-Left d e start n h = ([], h, refl, sym (append-nil d.queue))
trace-Left d e (next {d = k} t (post s)) n h =
    let l = trace-Left d k t n h in
    (l.0 ++ s ∷ [], l.1, l.2, ap (λ q. q ++ s ∷ []) l.3 ∙ append_assoc d.queue l.0 (s ∷ []))
trace-Left d e (next {d = k} t (set_stop b)) n h = trace-Left d k t n h
trace-Left d e (next {d = k} t (notify m x)) n h =
    let l = trace-Left d k t n h in (l.0, ap wake l.1, l.2, l.3)
trace-Left d e (next {d = k} t spurious) n h =
    let l = trace-Left d k t n h in (l.0, ap wake l.1, l.2, l.3)
trace-Left d e (next {d = k} t (acquire_first x)) n h = ground (arith, trace-Left d k t n h)
trace-Left d e (next {d = k} t (check_stop x)) n h = ground (arith, trace-Left d k t n h)
trace-Left d e (next {d = k} t (acquire_again x)) n h = ground (arith, trace-Left d k t n h)
trace-Left d e (next {d = k} t (decide_stop x)) n h = ground (arith, trace-Left d k t n h)
trace-Left d e (next {d = k} t (wait x)) n h = ground (arith, trace-Left d k t n h)
trace-Left d e (next {d = k} t (resume x xs y)) n h = ground (arith, trace-Left d k t n h)
trace-Left d e (next {d = k} t (finish x)) n h = ground (arith, trace-Left d k t n h)
trace-Left d e (next t (enter x)) n h = absurd n

-- What a further call of `run` makes of a context.
abbrev pub entered_again : Context → List ℕ → Context
entered_again e q = record e { queue = []; running = resuming q }

acquired-snoc :
    (q more : List ℕ) (s : ℕ) → acquired (q ++ s ∷ more) checking ≡ resuming (q ++ s ∷ more)
unfolding acquired
acquired-snoc [] more s = refl
acquired-snoc (x ∷ q) more s = refl

entered_again-reached :
    (e : Context) (q more : List ℕ) (s : ℕ)
    → e.running ≡ returned
    → e.queue ≡ q ++ s ∷ more
    → Trace e (entered_again e (q ++ s ∷ more))
entered_again-reached e q more s r h =
    subst (λ x. Trace e (record e { queue = []; running = x }))
      (ap (λ l. acquired l checking) h ∙ acquired-snoc q more s)
      (next (next start (enter r)) (acquire_first refl))

-- Wherever `run` is at its test of `stop_`, there are steps that post a schedule and then ask for a
-- stop, in this order, upon which `run` returns. In whatever history follows without a further call of `run`,
-- even one that takes the request to stop back, nothing more is resumed and the schedule stays in the
-- list, behind those posted before it; and there are steps on which a further call of `run` then takes exactly these, the schedule and
-- those posted before and behind it.
pub stop-Drops :
    (c e : Context) (s : ℕ)
    → c.running ≡ checking
    → (t : Trace (overtaken s c) e) → NeverEnters t
    → Trace c (overtaken s c)
      × ((more : List ℕ) × (e.running ≡ returned)
          × (e.resumed ≡ c.resumed)
          × (e.queue ≡ c.queue ++ s ∷ more)
          × Trace e (entered_again e (c.queue ++ s ∷ more)))
stop-Drops c e s h t n =
    let l = trace-Left (overtaken s c) e t n refl in
    let q = l.3 ∙ append_assoc c.queue (s ∷ []) l.0 in
    (overtaken-reached c s h, (l.0, l.1, l.2, q, entered_again-reached e c.queue l.0 s l.1 q))
