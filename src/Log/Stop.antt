-- ===== src/Log/Stop.antt =====
-- `stop` of src/ice/src/ice/log.cpp and the thread of its `logger`, which runs the context of
-- src/ice/include/ice/context.hpp, beside the calls of Log/Queue. What the wait of the context may miss
-- is in Context/Wakeup: here the thread that waits may look at its list at any time.
pub mod Laws
pub mod Strands
mod Tests
use ice_coroutines.Base.{ℕ, Bool, true, false, [], ◌≡◌}
use ice_coroutines.Log.Queue
use ice_coroutines.Log.Queue.{
  ready, set_limit, test_below, test_over, fetch_add, post, post_over, print, fetch_sub, complete,
  return,
}

-- The thread: at an `acquire` or in a coroutine that one gave, at the test of `stop_` behind an `acquire` that
-- gave nothing, or behind `run`.
pub data Running : Type 0 where
  working checking left : Running

-- The thread that calls `stop`: elsewhere, or behind `context_.stop()`.
pub data Stopper : Type 0 where
  outside joining : Stopper

pub record System : Type 0 where
  pub calls : Queue.System
  pub running : Running
  -- `stop_` of the context, and `thread_.joinable()`.
  pub stop : Bool
  pub joinable : Bool
  pub stopper : Stopper

abbrev pub initial : ℕ → System
initial limit = record {
  calls = Queue.initial limit;
  running = working;
  stop = false;
  joinable = true;
  stopper = outside;
}

-- The test of `stop_` in `run`.
unfoldable pub check : Bool → Running
check true = left
check false = working

module _ (threads : ℕ) where
  -- Whether a step is one of the thread of the logger.
  unfoldable pub by_logger : {m n : Queue.System} → Queue.Step threads m n → Bool
  by_logger (set_limit n) = false
  by_logger (test_below c l) = false
  by_logger (test_over c l) = false
  by_logger (fetch_add n a) = false
  by_logger (post e n a) = false
  by_logger (post_over e n a) = false
  by_logger (print x xs l q) = true
  by_logger (fetch_sub e l) = true
  by_logger (complete e l) = true
  by_logger (return before e after w c) = false

  pub data Step (m : System) : System → Type 0 where
    calls :
        (n : Queue.System) (s : Queue.Step threads m.calls n)
        → by_logger s ≡ false
        → Step m (record m { calls = n })
    works :
        (n : Queue.System)
        → Queue.Step threads m.calls n
        → m.running ≡ working
        → Step m (record m { calls = n })
    acquires_nothing :
        m.running ≡ working
        → m.calls.logger ≡ ready
        → m.calls.queue ≡ []
        → Step m (record m { running = checking })
    checks : m.running ≡ checking → Step m (record m { running = check m.stop })
    stops : m.stopper ≡ outside → Step m (record m { stop = true; stopper = joining })
    joins :
        m.stopper ≡ joining
        → m.joinable ≡ true
        → m.running ≡ left
        → Step m (record m { joinable = false; stopper = outside })
    -- A second `stop`, such as that of the destructor.
    skips : m.stopper ≡ joining → m.joinable ≡ false → Step m (record m { stopper = outside })

  pub data Trace (m : System) : System → Type 0 where
    start : Trace m m
    next : {n o : System} → Trace m n → Step n o → Trace m o
