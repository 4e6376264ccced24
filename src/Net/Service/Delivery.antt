-- ===== src/Net/Service/Delivery.antt =====
-- `post` and `stop` of src/ice/include/ice/net/service.hpp together with the loop of `run` in
-- src/ice/src/ice/net/service.cpp for Linux, each step of a thread at a time. The list of `scheduler`
-- is the queue that Scheduler/Fifo shows it to be. The `eventfd` is always writable, so epoll reports
-- it once, from the time that `interrupt` arms it. On FreeBSD the user event with `EV_CLEAR`
-- takes its place.
pub mod Laws
use ice_coroutines.Base.{
  ℕ, suc, Bool, true, false, Option, none, some, List, [], ◌∷◌, ◌++◌, ◌≡◌, if◌then◌else◌,
}
use ice_coroutines.Net.Service.{timeout}

-- Where `run` stands: at `epoll_wait`, behind one without entries, behind an entry of the `eventfd` and
-- before the load of `stop_`, behind that and before `process`, in the loop of `process` with the
-- schedules still to be resumed, or returned.
pub data Running : Type 0 where
  polling timed_out notified woken returned : Running
  resuming : List ℕ → Running

pub record System : Type 0 where
  pub queue : List ℕ
  pub stop_flag : Bool
  -- The local `stop` of `run`.
  pub stop : Bool
  pub armed : Bool
  pub running : Running
  -- Calls of `post` and `stop` that have still to call `interrupt`.
  pub notices : ℕ
  -- An `interrupt` has failed; its caller has the error.
  pub refused : Bool
  -- The schedules posted and those resumed so far, oldest first.
  pub posted : List ℕ
  pub resumed : List ℕ

-- A service whose `create` has succeeded, with the interruption of `create` and with a thread that
-- has just entered `run`.
abbrev pub entered : System
entered = record {
  queue = [];
  stop_flag = false;
  stop = false;
  armed = true;
  running = polling;
  notices = 0;
  refused = false;
  posted = [];
  resumed = [];
}

-- Where an `epoll_wait` without entries leads, by `stop_`.
unfoldable pub idle : Bool → Running
idle true = returned
idle false = polling

pub data Step (m : System) : System → Type 0 where
  post :
      (s : ℕ)
      → Step m (record m {
        queue = m.queue ++ s ∷ [];
        posted = m.posted ++ s ∷ [];
        notices = suc m.notices;
      })
  set_stop : (b : Bool) → Step m (record m { stop_flag = b; notices = suc m.notices })
  interrupt : (n : ℕ) → m.notices ≡ suc n → Step m (record m { notices = n; armed = true })
  interrupt_fails : (n : ℕ) → m.notices ≡ suc n → Step m (record m { notices = n; refused = true })
  -- `epoll_wait` gives the `eventfd` among its entries, which `EPOLLONESHOT` disarms.
  poll_interrupt :
      m.running ≡ polling → m.armed ≡ true → Step m (record m { armed = false; running = notified })
  load_stop : m.running ≡ notified → Step m (record m { stop = m.stop_flag; running = woken })
  -- A timeout, which needs a local `stop`, or a signal; and entries of events alone change nothing.
  poll_timeout :
      (after : ℕ)
      → m.running ≡ polling
      → timeout m.stop ≡ some after
      → Step m (record m { running = timed_out })
  poll_signal : m.running ≡ polling → Step m (record m { running = timed_out })
  test_stop : m.running ≡ timed_out → Step m (record m { running = idle m.stop_flag })
  -- Any other error ends `run`.
  poll_fails : m.running ≡ polling → Step m (record m { running = returned })
  acquire : m.running ≡ woken → Step m (record m { queue = []; running = resuming m.queue })
  resume :
      (x : ℕ) (xs : List ℕ)
      → m.running ≡ resuming (x ∷ xs)
      → Step m (record m { running = resuming xs; resumed = m.resumed ++ x ∷ [] })
  finish : m.running ≡ resuming [] → Step m (record m { running = polling })

pub data Trace (m : System) : System → Type 0 where
  start : Trace m m
  next : {n o : System} → Trace m n → Step n o → Trace m o
