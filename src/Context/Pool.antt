-- ===== src/Context/Pool.antt =====
-- src/ice/include/ice/context.hpp with any number of threads in `run`. The mutex is held from
-- `lock.lock()` to the wait, to `lock.unlock()` and to the return, and a thread that is woken takes it
-- again before its predicate. The `lock` and `unlock` in front of the loop change nothing and are left
-- out.
pub mod Laws
pub mod Notified
mod Tests
use ice_coroutines.Base.{ℕ, zero, suc, Bool, true, false, ◌||◌, List, [], ◌∷◌, ◌++◌, map, ◌≡◌}

-- Where a thread stands: before `lock.lock()`, at the test of `stop_` behind an `acquire` that gave
-- nothing, before the `acquire` of the predicate, at its test of `stop_`, behind a predicate that was false,
-- blocked in `cv_.wait`, woken there and before the mutex, with the schedules that it has still to resume, or returned.
pub data Place : Type 0 where
  locking checking predicate deciding willing blocked woken returned : Place
  resuming : List ℕ → Place

pub record Pool : Type 0 where
  pub queue : List ℕ
  pub stop : Bool
  pub threads : List Place
  -- Calls of `post` and `stop` that have still to notify.
  pub posts : ℕ
  pub stops : ℕ
  -- The schedules posted and those resumed so far, oldest first.
  pub posted : List ℕ
  pub resumed : List ℕ

-- So many threads that are about to enter the loop of `run`.
unfoldable pub all_locking : ℕ → List Place
all_locking zero = []
all_locking (suc n) = locking ∷ all_locking n

abbrev pub entered : ℕ → Pool
entered threads = record {
  queue = [];
  stop = false;
  threads = all_locking threads;
  posts = 0;
  stops = 0;
  posted = [];
  resumed = [];
}

-- The places with the mutex.
unfoldable pub holds : Place → Bool
holds checking = true
holds predicate = true
holds deciding = true
holds willing = true
holds _ = false

unfoldable pub is_blocked : Place → Bool
is_blocked blocked = true
is_blocked _ = false

unfoldable pub any : (Place → Bool) → List Place → Bool
any f [] = false
any f (p ∷ ps) = f p || any f ps

-- What `acquire` leads to: its schedules, or where `run` goes without any.
unfoldable pub acquired : List ℕ → Place → Place
acquired [] empty = empty
acquired (x ∷ xs) empty = resuming (x ∷ xs)

-- The test of `stop_` before the wait, and that of the predicate.
unfoldable pub check : Bool → Place
check true = returned
check false = predicate

unfoldable pub decide : Bool → Place
decide true = checking
decide false = willing

-- `notify_all` at one thread.
unfoldable pub wake : Place → Place
wake blocked = woken
wake p = p

pub data Step (m : Pool) : Pool → Type 0 where
  post :
      (s : ℕ)
      → Step m
          (record m { queue = m.queue ++ s ∷ []; posted = m.posted ++ s ∷ []; posts = suc m.posts })
  set_stop : (b : Bool) → Step m (record m { stop = b; stops = suc m.stops })
  notify_one :
      (n : ℕ) (before after : List Place)
      → m.posts ≡ suc n
      → m.threads ≡ before ++ blocked ∷ after
      → Step m (record m { posts = n; threads = before ++ woken ∷ after })
  notify_none :
      (n : ℕ) → m.posts ≡ suc n → any is_blocked m.threads ≡ false → Step m (record m { posts = n })
  notify_all :
      (n : ℕ) → m.stops ≡ suc n → Step m (record m { stops = n; threads = map wake m.threads })
  spurious :
      (before after : List Place)
      → m.threads ≡ before ++ blocked ∷ after
      → Step m (record m { threads = before ++ woken ∷ after })
  -- `lock.lock()`, and the `acquire` behind it.
  lock :
      (before after : List Place)
      → m.threads ≡ before ++ locking ∷ after
      → any holds m.threads ≡ false
      → Step m (record m { queue = []; threads = before ++ acquired m.queue checking ∷ after })
  check_stop :
      (before after : List Place)
      → m.threads ≡ before ++ checking ∷ after
      → Step m (record m { threads = before ++ check m.stop ∷ after })
  relock :
      (before after : List Place)
      → m.threads ≡ before ++ woken ∷ after
      → any holds m.threads ≡ false
      → Step m (record m { threads = before ++ predicate ∷ after })
  acquire_again :
      (before after : List Place)
      → m.threads ≡ before ++ predicate ∷ after
      → Step m (record m { queue = []; threads = before ++ acquired m.queue deciding ∷ after })
  decide_stop :
      (before after : List Place)
      → m.threads ≡ before ++ deciding ∷ after
      → Step m (record m { threads = before ++ decide m.stop ∷ after })
  wait :
      (before after : List Place)
      → m.threads ≡ before ++ willing ∷ after
      → Step m (record m { threads = before ++ blocked ∷ after })
  resume :
      (before after : List Place) (x : ℕ) (xs : List ℕ)
      → m.threads ≡ before ++ resuming (x ∷ xs) ∷ after
      → Step m (record m { threads = before ++ resuming xs ∷ after; resumed = m.resumed ++ x ∷ [] })
  finish :
      (before after : List Place)
      → m.threads ≡ before ++ resuming [] ∷ after
      → Step m (record m { threads = before ++ locking ∷ after })

pub data Trace (m : Pool) : Pool → Type 0 where
  start : Trace m m
  next : {n o : Pool} → Trace m n → Step n o → Trace m o
