-- ===== src/Context.antt =====
-- src/ice/include/ice/context.hpp, with one thread in `run`. The list of `scheduler` is the queue
-- that Scheduler/Fifo shows it to be: `post` adds to it and `acquire` takes all of it. A `post` and a
-- `stop` have two steps, the change and the notification, and neither holds the mutex, so the steps
-- of `run` may come between and around them.
pub mod Order
pub mod Wakeup
pub mod Pool
pub mod Stop
mod Tests
use ice_coroutines.Base.{ℕ, suc, Bool, true, false, List, [], ◌∷◌, ◌++◌, ◌≡◌}

-- Where `run` stands: before its own `acquire`, at the test of `stop_` behind it, before the
-- `acquire` of the predicate, at the test of `stop_` of the predicate, behind a predicate that was
-- false, blocked in `cv_.wait`, with the schedules that it has still to resume, or returned.
pub data Running : Type 0 where
  acquiring checking predicate deciding willing blocked returned : Running
  resuming : List ℕ → Running

pub record Context : Type 0 where
  pub queue : List ℕ
  pub stop : Bool
  pub running : Running
  -- Changes that have not been notified yet.
  pub notices : ℕ
  -- The schedules posted and those resumed so far, oldest first.
  pub posted : List ℕ
  pub resumed : List ℕ

-- A context whose thread has just entered `run`.
abbrev pub entered : Context
entered = record {
  queue = [];
  stop = false;
  running = acquiring;
  notices = 0;
  posted = [];
  resumed = [];
}

-- What `acquire` leads to: its schedules, or where `run` goes without any.
unfoldable pub acquired : List ℕ → Running → Running
acquired [] empty = empty
acquired (x ∷ xs) empty = resuming (x ∷ xs)

-- `notify_one` and `notify_all`, and a wake-up without a reason: only a blocked thread notices.
unfoldable pub wake : Running → Running
wake blocked = predicate
wake r = r

-- The test of `stop_` before the wait, and that of the predicate, which leads back to the first.
unfoldable pub check : Bool → Running
check true = returned
check false = predicate

unfoldable pub decide : Bool → Running
decide true = checking
decide false = willing

pub data Step (c : Context) : Context → Type 0 where
  post :
      (s : ℕ)
      → Step c (record c {
        queue = c.queue ++ s ∷ [];
        posted = c.posted ++ s ∷ [];
        notices = suc c.notices;
      })
  set_stop : (b : Bool) → Step c (record c { stop = b; notices = suc c.notices })
  notify : (n : ℕ) → c.notices ≡ suc n → Step c (record c { notices = n; running = wake c.running })
  spurious : Step c (record c { running = wake c.running })
  acquire_first :
      c.running ≡ acquiring → Step c (record c { queue = []; running = acquired c.queue checking })
  check_stop : c.running ≡ checking → Step c (record c { running = check c.stop })
  acquire_again :
      c.running ≡ predicate → Step c (record c { queue = []; running = acquired c.queue deciding })
  decide_stop : c.running ≡ deciding → Step c (record c { running = decide c.stop })
  wait : c.running ≡ willing → Step c (record c { running = blocked })
  resume :
      (x : ℕ) (xs : List ℕ)
      → c.running ≡ resuming (x ∷ xs)
      → Step c (record c { running = resuming xs; resumed = c.resumed ++ x ∷ [] })
  finish : c.running ≡ resuming [] → Step c (record c { running = acquiring })
  -- A further call of `run`.
  enter : c.running ≡ returned → Step c (record c { running = acquiring })

pub data Trace (c : Context) : Context → Type 0 where
  start : Trace c c
  next : {d e : Context} → Trace c d → Step d e → Trace c e
