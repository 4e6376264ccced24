-- ===== src/Utility.antt =====
-- `thread_local_storage` of src/ice/include/ice/utility.hpp and src/ice/src/ice/utility.cpp, and what
-- `is_current` of src/ice/include/ice/context.hpp and src/ice/include/ice/net/service.hpp makes of it
-- for the calls of `run` on one thread. `none` is the null pointer.
pub mod Current
pub mod Scope
pub mod Storage
pub mod Affinity
mod Tests
use ice_coroutines.Base.{
  ℕ, ◌==◌, Bool, true, false, ◌&&◌, Option, none, some, List, [], ◌∷◌, ◌++◌, if◌then◌else◌,
}
use ice_coroutines.Scheduler.{await_ready}

-- The values of all threads, by thread and key. A key that has just been made has none on any thread.
abbrev pub Values : Type 0
Values = ℕ → ℕ → Option ℕ

-- `pthread_setspecific` and `TlsSetValue`.
abbrev pub set_value : Values → ℕ → ℕ → Option ℕ → Values
set_value v thread key value t k = if t == thread && k == key then value else v t k

-- `lock(handle, value)` and its destructor, and `get`.
unfoldable pub lock : Values → ℕ → ℕ → ℕ → Values
lock v thread key value = set_value v thread key (some value)

unfoldable pub unlock : Values → ℕ → ℕ → Values
unlock v thread key = set_value v thread key none

unfoldable pub get : Values → ℕ → ℕ → Option ℕ
get v thread key = v thread key

-- A pointer as a condition.
abbrev pub present : Option ℕ → Bool
present none = false
present (some p) = true

-- `is_current` of a scheduler, which is the key of its `index_`.
unfoldable pub is_current : Values → ℕ → ℕ → Bool
unfolding get
is_current v thread scheduler = present (get v thread scheduler)

-- What a thread does in and around its calls of `run`: a call with what happens until it returns, and
-- `schedule(post)` on some scheduler.
pub data Calls : Type 0 where
  nothing : Calls
  runs : ℕ → Calls → Calls → Calls
  schedules : ℕ → Bool → Calls → Calls

-- The answers of `await_ready`, and the values that are left. `run` holds a `lock` of its `index_`,
-- with its own address, from its start to its return.
module _ (thread : ℕ) where
  unfoldable pub exec : Calls → Values → List Bool × Values
  unfolding lock unlock is_current await_ready
  exec nothing v = ([], v)
  exec (runs s inside more) v =
      let during = exec inside (lock v thread s s) in
      let behind = exec more (unlock during.1 thread s) in (during.0 ++ behind.0, behind.1)
  exec (schedules s post more) v =
      let behind = exec more v in (await_ready post (is_current v thread s) ∷ behind.0, behind.1)
