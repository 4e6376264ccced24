-- ===== src/Log/Sink.antt =====
-- The two coroutines `logger::queue` of src/ice/src/ice/log.cpp behind their `schedule`, with the sink that
-- `set` stores and what they make of an exception. A sink is a number; what a sink or `print` throws is a
-- parameter. An entry is a number.
pub mod Laws
mod Tests
use ice_coroutines.Base.{ℕ, ◌-◌, ◌+◌, ◌%◌, ◌^◌, Option, none, some, String, List, [], ◌∷◌, ◌++◌}

-- An exception: one of `std::exception` with its text, or another.
pub data Thrown : Type 0 where
  exception : String → Thrown
  unknown : Thrown

-- What a sink throws for an entry; `none` for the sink is `print`.
abbrev pub Prints : Type 0
Prints = Option ℕ → ℕ → Option Thrown

pub record Logger : Type 0 where
  -- `g_sink` and `g_count`.
  pub sink : Option ℕ
  pub count : ℕ
  -- The calls of `print`, each with its sink, what was written on `stderr`, and the entries of
  -- calls at the limit whose `completed` has been set.
  pub printed : List (Option ℕ × ℕ)
  pub errors : List String
  pub completed : List ℕ

-- What the thread of the logger does, and what any thread does in between: it runs one of the two
-- coroutines, or `g_sink` is stored.
pub data Op : Type 0 where
  set : Option ℕ → Op
  counted awaited : ℕ → Op

-- The handlers.
unfoldable pub told : Option Thrown → List String
told none = []
told (some (exception what)) = "critical logger error: " ∷ what ∷ "\n" ∷ []
told (some unknown) = "critical logger error\n" ∷ []

module _ (prints : Prints) where
  -- The `try` block with its handlers.
  unfoldable pub guarded : ℕ → Logger → Logger
  unfolding told
  guarded e s = record s {
    printed = s.printed ++ (s.sink, e) ∷ [];
    errors = s.errors ++ told (prints s.sink e);
  }

  unfoldable pub step : Logger → Op → Logger
  unfolding guarded
  step s (set x) = record s { sink = x }
  step s (counted e) =
      let s' = guarded e s in record s' { count = (s'.count + (2 ^ 64 - 1)) % 2 ^ 64 }
  step s (awaited e) = let s' = guarded e s in record s' { completed = s'.completed ++ e ∷ [] }

  unfoldable pub run : Logger → List Op → Logger
  unfolding step
  run s [] = s
  run s (o ∷ os) = run (step s o) os
