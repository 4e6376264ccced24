-- ===== src/Log/Wait.antt =====
-- `log::queue` of src/ice/src/ice/log.cpp at the limit: one call that waits on its own `cv` for
-- `completed`, against the coroutine `queue(entry, completed, cv)` on the thread of the logger. The
-- mutex of the call is one of its locals, which the logger does not take.
pub mod Laws
use ice_coroutines.Base.{ℕ, Bool, true, false, not, ◌&&◌, ◌||◌, List, ◌≡◌}

-- The call: at the predicate of `cv.wait`, behind a predicate that was false, blocked, or returned.
pub data Caller : Type 0 where
  testing willing blocked returned : Caller

-- The coroutine: in the list of the context, behind `print`, behind `completed.store`, and behind
-- `cv.notify_one`.
pub data Logger : Type 0 where
  queued printed stored notified : Logger

pub record System : Type 0 where
  pub caller : Caller
  pub logger : Logger
  pub completed : Bool
  -- Whether the logger has used `completed` or `cv` after the call has returned.
  pub dangling : Bool

-- The call has posted its coroutine.
abbrev pub posted : System
posted = record { caller = testing; logger = queued; completed = false; dangling = false }

-- `notify_one`, and a wake-up without a reason: only a blocked call notices.
unfoldable pub wake : Caller → Caller
wake blocked = testing
wake c = c

-- The predicate of the wait.
unfoldable pub test : Bool → Caller
test true = returned
test false = willing

unfoldable pub has_returned : Caller → Bool
has_returned returned = true
has_returned c = false

pub data Step (m : System) : System → Type 0 where
  predicate : m.caller ≡ testing → Step m (record m { caller = test m.completed })
  wait : m.caller ≡ willing → Step m (record m { caller = blocked })
  print : m.logger ≡ queued → Step m (record m { logger = printed })
  store :
      m.logger ≡ printed
      → Step m (record m {
        logger = stored;
        completed = true;
        dangling = m.dangling || has_returned m.caller;
      })
  notify_one :
      m.logger ≡ stored
      → Step m (record m {
        logger = notified;
        caller = wake m.caller;
        dangling = m.dangling || has_returned m.caller;
      })

pub data Trace (m : System) : System → Type 0 where
  start : Trace m m
  next : {n o : System} → Trace m n → Step n o → Trace m o
  -- A wake-up without a reason, which nobody can count on.
  spurious : {n : System} → Trace m n → Trace m (record n { caller = wake n.caller })
