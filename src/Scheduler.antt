-- ===== src/Scheduler.antt =====
-- src/ice/include/ice/scheduler.hpp: `schedule`, and the intrusive list of `scheduler`, on which any
-- number of threads post while any number take everything. A `schedule` is its address; `none` is the null
-- pointer. Atomic operations take place one at a time, in any order that the threads allow.
pub mod Chain
pub mod Acquire
pub mod Lists
pub mod Steps
pub mod Fifo
mod Tests
use ice_coroutines.Base.{
  ℕ, zero, suc, ◌==◌, Bool, true, false, not, ◌&&◌, ◌||◌, Option, none, some, List, [], ◌∷◌,
  if◌then◌else◌, ◌≡◌, ◌>>=◌,
}

-- `schedule(Scheduler&, bool post)` and `await_ready`: with no hop if the thread is the
-- scheduler's own and no post was asked for.
unfoldable pub await_ready : Bool → Bool → Bool
await_ready post is_current = not post && is_current

abbrev pub Links : Type 0
Links = ℕ → Option ℕ

abbrev pub update {ℓ} : {A : Type ℓ} → (ℕ → A) → ℕ → A → ℕ → A
update f p v q = if p == q then v else f q

-- The `while` loop of `acquire`, with fuel: it turns the links round behind `head`. `none` is a loop
-- that has not ended.
unfoldable pub turn : ℕ → Links → Option ℕ → Option ℕ → Option (Links × Option ℕ)
turn fuel next prev none = some (next, prev)
turn zero next prev (some head) = none
turn (suc fuel) next prev (some head) = turn fuel (update next head prev) (some head) (next head)

-- `acquire`, behind its `exchange(nullptr)`, which gave `head`.
unfoldable pub acquire : ℕ → Links → Option ℕ → Option (Links × Option ℕ)
unfolding turn
acquire fuel next none = some (next, none)
acquire fuel next (some head) = elim (next head) [
  | none ↦ some (next, some head)
  | some second ↦ turn fuel next none (some head)
]

-- Where a thread stands in `post` for its schedule: before its load of the head; with the head that
-- it has seen; with that head stored as the next link; behind its exchange, until it is resumed.
pub data Pc : Type 0 where
  fresh queued : Pc
  loaded linked : Option ℕ → Pc

pub record System : Type 0 where
  pub head : Option ℕ
  pub next : Links
  -- The local `head` of each thread in `process`, by thread.
  pub cursor : ℕ → Option ℕ
  pub pc : ℕ → Pc

-- What the clients of the scheduler see of a step.
pub data Event : Type 0 where
  quiet : Event
  posts : ℕ → Event
  takes : ℕ → Event
  resumes : ℕ → ℕ → Event

-- The atomic steps. `retry` is a `compare_exchange_weak` that fails, for whatever reason, and loads
-- the head anew. `take` is the `acquire` of a thread whose loop in `process` has ended: behind its
-- exchange nobody else reads or writes the links that it turns round. `resume` is a round of that
-- loop: it loads the next link and resumes the schedule, whose memory may be used for a new one from
-- then on, by the coroutine resumed or by another.
pub data Step (m : System) : Event → System → Type 0 where
  load : (s : ℕ) → m.pc s ≡ fresh → Step m quiet (record m { pc = update m.pc s (loaded m.head) })
  store :
      (s : ℕ) (h : Option ℕ)
      → m.pc s ≡ loaded h
      → Step m quiet (record m { next = update m.next s h; pc = update m.pc s (linked h) })
  exchange :
      (s : ℕ) (h : Option ℕ)
      → m.pc s ≡ linked h
      → m.head ≡ h
      → Step m (posts s) (record m { head = some s; pc = update m.pc s queued })
  retry :
      (s : ℕ) (h : Option ℕ)
      → m.pc s ≡ linked h
      → Step m quiet (record m { pc = update m.pc s (loaded m.head) })
  take :
      (t fuel : ℕ) (next : Links) (first : Option ℕ)
      → m.cursor t ≡ none
      → acquire fuel m.next m.head ≡ some (next, first)
      → Step m (takes t) (record m { head = none; next = next; cursor = update m.cursor t first })
  resume :
      (t s : ℕ)
      → m.cursor t ≡ some s
      → Step m
          (resumes t s)
          (record m { cursor = update m.cursor t (m.next s); pc = update m.pc s fresh })

pub data Trace : System → List Event → System → Type 0 where
  stop : {m : System} → Trace m [] m
  more :
      {m n o : System} {e : Event} {es : List Event}
      → Step m e n
      → Trace n es o
      → Trace m (e ∷ es) o

-- A scheduler with no schedule posted.
abbrev pub idle : System
idle = record { head = none; next = λ _. none; cursor = λ _. none; pc = λ _. fresh }
