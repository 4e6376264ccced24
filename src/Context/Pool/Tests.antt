-- ===== src/Context/Pool/Tests.antt =====
-- Two threads in `run`: one resumes a schedule while the other takes the next one.
use ice_coroutines.Base.{◌⊎◌, true, false, ◌+◌, ◌≤◌, [], ◌∷◌, ◌≡◌, refl}
use ice_coroutines.Context.Pool.Notified.{eager, Waits, pool-Wakes}
use ice_coroutines.Context.Pool.{
  blocked, check, decide, is_blocked, check_stop, acquire_again, decide_stop, wait, notify_one,
  locking, resuming, Pool, entered, acquired, post, lock, resume, Trace, start, next, holds, any,
  all_locking,
}
use ice_coroutines.Context.Pool.Laws.{count, held, holders, pool-accounted}

history : (m : Pool) × Trace (entered 2) m
unfolding acquired any holds all_locking
history = (
  _,
  next
      (next (next (next (next start (post 5)) (lock [] (locking ∷ []) refl refl)) (post 6))
        (resume [] (locking ∷ []) 5 [] refl))
      (lock (resuming [] ∷ []) [] refl refl),
)

history-resumed : history.0.resumed ≡ 5 ∷ []
unfolding history
history-resumed = refl

history-threads : history.0.threads ≡ resuming [] ∷ resuming (6 ∷ []) ∷ []
unfolding history acquired
history-threads = refl

pool-accounted_example :
    (count 6 history.0.posted
      ≡ count 6 history.0.resumed + (held 6 history.0.threads + count 6 history.0.queue))
    × (holders history.0.threads ≤ 1)
pool-accounted_example = pool-accounted 2 6 history.0 history.1

-- Both threads wait, and the notification of 5 wakes the first.
one_woken : (m : Pool) × Trace (entered 2) m
unfolding acquired any holds all_locking check decide
one_woken =
    let l = locking ∷ [] in
    let first =
      next (next (next start (lock [] l refl refl)) (check_stop [] l refl))
        (acquire_again [] l refl) in
    let one = next (next first (decide_stop [] l refl)) (wait [] l refl) in
    let b = blocked ∷ [] in
    let second =
      next (next (next one (lock b [] refl refl)) (check_stop b [] refl))
        (acquire_again b [] refl) in
    let both = next (next second (decide_stop b [] refl)) (wait b [] refl) in
    (_, next (next both (post 5)) (notify_one 0 [] b refl refl))

one_woken-Waits : Waits one_woken.1
unfolding one_woken Waits
one_woken-Waits = tt

pool-Wakes_example :
    ((one_woken.0.queue ≡ []) ⊎ (any eager one_woken.0.threads ≡ true)) × (one_woken.0.stop ≡ false)
unfolding one_woken any is_blocked
pool-Wakes_example = pool-Wakes 2 one_woken.0 one_woken.1 one_woken-Waits refl refl refl
