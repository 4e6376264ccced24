-- ===== src/Context/Wakeup.antt =====
-- When `run` ends, and what its wait may miss.
use ice_coroutines.Base.{ℕ, true, false, List, [], ◌∷◌, ◌++◌, ◌≡◌, ◌≢◌, refl, ap, arith}
use ice_coroutines.Context.{
  deciding, blocked, returned, Context, entered, acquired, wake, check, decide, Step, post,
  set_stop, notify, spurious, acquire_first, check_stop, acquire_again, decide_stop, wait, resume,
  finish, enter, Trace, start, next,
}

-- A context whose thread is blocked, with a schedule in the list and nobody left to notify it.
pub record IsLost (c : Context) : Type 0 where
  pub blocked_there : c.running ≡ blocked
  pub waiting : c.queue ≢ []
  pub silent : c.notices ≡ 0

snoc_nonempty : (q : List ℕ) (s : ℕ) → q ++ s ∷ [] ≢ []
snoc_nonempty [] s e = ground arith
snoc_nonempty (x ∷ q) s e = ground arith

-- A predicate that has found nothing to resume and no request to stop, with no notification under
-- way, may lose the next one: whatever the schedule, there are steps that post it, after which the thread
-- is blocked, the schedule is the last of the list and no notification is under way.
decide-IsLost :
    (c : Context) (s : ℕ)
    → c.running ≡ deciding
    → c.stop ≡ false
    → c.notices ≡ 0
    → (d : Context) × Trace c d × IsLost d × (d.queue ≡ c.queue ++ s ∷ [])
unfolding wake decide
decide-IsLost c s e f n = (
  _,
  next (next (next (next start (post s)) (notify c.notices refl)) (decide_stop (ap wake e)))
      (wait (ap decide f)),
  record { blocked_there = refl; waiting = snoc_nonempty c.queue s; silent = n },
  refl,
)

-- No step of the history asks for a stop.
unfoldable pub NeverStops : {c d : Context} → Trace c d → Type 0
NeverStops start = Unit
NeverStops (next t (set_stop true)) = ⊥
NeverStops (next t _) = NeverStops t

abbrev Going : Context → Type 0
Going c = (c.stop ≡ false) × (c.running ≢ returned)

step-Going :
    (c d e : Context) (t : Trace c d) (s : Step d e) → NeverStops (next t s) → Going d → Going e
unfolding NeverStops wake check decide acquired
step-Going c d e t (post s) n g = g
step-Going c d e t (set_stop true) n g = ground arith
step-Going c d e t (set_stop false) n g = (refl, g.1)
step-Going c d e t (notify k h) n g = ground arith
step-Going c d e t spurious n g = ground arith
step-Going c d e t (acquire_first h) n g = ground arith
step-Going c d e t (check_stop h) n g = ground arith
step-Going c d e t (acquire_again h) n g = ground arith
step-Going c d e t (decide_stop h) n g = ground arith
step-Going c d e t (wait h) n g = ground arith
step-Going c d e t (resume x xs h) n g = ground arith
step-Going c d e t (finish h) n g = ground arith
step-Going c d e t (enter h) n g = absurd (g.1 h)

earlier : {c d e : Context} (t : Trace c d) (s : Step d e) → NeverStops (next t s) → NeverStops t
unfolding NeverStops
earlier t (post s) n = n
earlier t (set_stop false) n = n
earlier t (set_stop true) n = ground arith
earlier t (notify k h) n = n
earlier t spurious n = n
earlier t (acquire_first h) n = n
earlier t (check_stop h) n = n
earlier t (acquire_again h) n = n
earlier t (decide_stop h) n = n
earlier t (wait h) n = n
earlier t (resume x xs h) n = n
earlier t (finish h) n = n
earlier t (enter h) n = n

trace-Going : (c : Context) (t : Trace entered c) → NeverStops t → Going c
trace-Going c start n = ground arith
trace-Going c (next {d} t s) n = step-Going entered d c t s n (trace-Going d t (earlier t s n))

-- Until somebody asks for a stop, `run` does not return, whatever is posted, notified or woken.
run-NeverStops : (c : Context) (t : Trace entered c) → NeverStops t → c.running ≢ returned
run-NeverStops c t n = (trace-Going c t n).1
