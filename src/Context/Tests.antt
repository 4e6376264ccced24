-- ===== src/Context/Tests.antt =====
-- A schedule is posted and resumed; and a thread that is about to wait.
use ice_coroutines.Base.{List, ℕ, ◌∷◌, false, [], ◌++◌, ◌≡◌, refl}
use ice_coroutines.Context.{
  checking, returned, Context, entered, acquired, post, set_stop, acquire_first, resume, Trace,
  start, next,
}
use ice_coroutines.Context.Order.{held, resumed-posted}
use ice_coroutines.Context.Stop.{overtaken, NeverEnters, entered_again, stop-Drops}
use ice_coroutines.Context.Wakeup.{NeverStops}

-- Schedule 5 is resumed, while 6 is posted.
history : (c : Context) × Trace entered c
unfolding acquired
history =
    (_, next (next (next (next start (post 5)) (acquire_first refl)) (post 6)) (resume 5 [] refl))

resumed-posted_example :
    history.0.resumed ++ (held history.0.running ++ history.0.queue) ≡ history.0.posted
resumed-posted_example = resumed-posted history.0 history.1

history-NeverStops : NeverStops history.1
unfolding history NeverStops
history-NeverStops = tt

-- Nothing was in the list; 5 is posted before the stop, and 6 behind it.
abbrev about_to_test : Context
about_to_test = record {
  queue = [];
  stop = false;
  running = checking;
  notices = 0;
  posted = [];
  resumed = [];
}

aftermath : (e : Context) × Trace (overtaken 5 about_to_test) e
aftermath = (_, next (next start (post 6)) (set_stop false))

aftermath-NeverEnters : NeverEnters aftermath.1
unfolding aftermath NeverEnters
aftermath-NeverEnters = tt

stop-Drops_example :
    Trace about_to_test (overtaken 5 about_to_test)
    × ((more : List ℕ) × (aftermath.0.running ≡ returned)
        × (aftermath.0.resumed ≡ [])
        × (aftermath.0.queue ≡ 5 ∷ more)
        × Trace aftermath.0 (entered_again aftermath.0 (5 ∷ more)))
stop-Drops_example = stop-Drops about_to_test aftermath.0 5 refl aftermath.1 aftermath-NeverEnters
