-- ===== src/Log/Queue.antt =====
-- `queue` of src/ice/src/ice/log.cpp with the thread of its `logger`: the calls from several threads,
-- one step at a time. An entry is a number; the list of the `context`
-- is a queue, as Scheduler/Fifo shows.
pub mod Laws
use ice_coroutines.Base.{
  ℕ, suc, ◌+◌, ◌-◌, ◌≤◌, ◌<◌, List, [], ◌∷◌, ◌++◌, length, Mem, ltb, if◌then◌else◌, ◌≡◌,
}

-- The coroutines that wait in the context: those of `queue(entry)`, and of `queue(entry, completed, cv)`.
pub data Item : Type 0 where
  counted awaited : ℕ → Item

abbrev pub entry : Item → ℕ
entry (counted e) = e
entry (awaited e) = e

-- The thread of the logger: at its next coroutine, or behind `print` in one.
pub data Logger : Type 0 where
  ready : Logger
  printed : Item → Logger

pub record System : Type 0 where
  -- `g_limit`, and the highest that it has been.
  pub limit : ℕ
  pub highest : ℕ
  -- `g_count`.
  pub count : ℕ
  -- Calls behind a test that was below the limit, and those that have also added to `g_count`.
  pub tested : ℕ
  pub added : ℕ
  -- Calls behind a test at the limit, and the entries of those that wait for `completed`.
  pub over : ℕ
  pub waiting : List ℕ
  pub queue : List Item
  pub logger : Logger
  pub completed : List ℕ
  -- The entries posted, those printed and those of the calls at the limit that have returned.
  pub posted : List ℕ
  pub output : List ℕ
  pub returned : List ℕ

abbrev pub initial : ℕ → System
initial limit = record {
  limit = limit;
  highest = limit;
  count = 0;
  tested = 0;
  added = 0;
  over = 0;
  waiting = [];
  queue = [];
  logger = ready;
  completed = [];
  posted = [];
  output = [];
  returned = [];
}

-- The calls that have not returned.
abbrev pub calls : System → ℕ
calls m = m.tested + (m.added + (m.over + length m.waiting))

abbrev pub max : ℕ → ℕ → ℕ
max a b = if ltb a b then b else a

-- With a number of threads that call.
module _ (threads : ℕ) where
  pub data Step (m : System) : System → Type 0 where
    set_limit : (n : ℕ) → Step m (record m { limit = n; highest = max m.highest n })
    test_below : calls m < threads → m.count < m.limit → Step m (record m { tested = suc m.tested })
    test_over : calls m < threads → m.limit ≤ m.count → Step m (record m { over = suc m.over })
    fetch_add :
        (n : ℕ)
        → m.tested ≡ suc n
        → Step m (record m { tested = n; added = suc m.added; count = suc m.count })
    post :
        (e n : ℕ)
        → m.added ≡ suc n
        → Step m
            (record m { added = n; queue = m.queue ++ counted e ∷ []; posted = m.posted ++ e ∷ [] })
    post_over :
        (e n : ℕ)
        → m.over ≡ suc n
        → Step m (record m {
          over = n;
          waiting = e ∷ m.waiting;
          queue = m.queue ++ awaited e ∷ [];
          posted = m.posted ++ e ∷ [];
        })
    print :
        (x : Item) (xs : List Item)
        → m.logger ≡ ready
        → m.queue ≡ x ∷ xs
        → Step m (record m { logger = printed x; queue = xs; output = m.output ++ entry x ∷ [] })
    fetch_sub :
        (e : ℕ)
        → m.logger ≡ printed (counted e)
        → Step m (record m { logger = ready; count = m.count - 1 })
    complete :
        (e : ℕ)
        → m.logger ≡ printed (awaited e)
        → Step m (record m { logger = ready; completed = e ∷ m.completed })
    return :
        (before : List ℕ) (e : ℕ) (after : List ℕ)
        → m.waiting ≡ before ++ e ∷ after
        → Mem e m.completed
        → Step m (record m { waiting = before ++ after; returned = e ∷ m.returned })

  pub data Trace (m : System) : System → Type 0 where
    start : Trace m m
    next : {n o : System} → Trace m n → Step n o → Trace m o
