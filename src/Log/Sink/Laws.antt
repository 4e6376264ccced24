-- ===== src/Log/Sink/Laws.antt =====
-- What the logger makes of a run of entries and sinks.
use ice_coroutines.Base.{ℕ, suc, Option, none, some, String, List, [], ◌∷◌, ◌++◌}
use ice_coroutines.Log.Sink.{Thrown, exception, unknown, Prints, Op, set, counted, awaited}

-- The number of the calls that are counted, and the entries of those at the limit.
abbrev pub counts : List Op → ℕ
counts [] = 0
counts (set x ∷ os) = counts os
counts (counted e ∷ os) = suc (counts os)
counts (awaited e ∷ os) = counts os

abbrev pub waits : List Op → List ℕ
waits [] = []
waits (set x ∷ os) = waits os
waits (counted e ∷ os) = waits os
waits (awaited e ∷ os) = e ∷ waits os

-- Each entry with the sink that was stored last before it.
abbrev pub serves : Option ℕ → List Op → List (Option ℕ × ℕ)
serves x [] = []
serves x (set y ∷ os) = serves y os
serves x (counted e ∷ os) = (x, e) ∷ serves x os
serves x (awaited e ∷ os) = (x, e) ∷ serves x os

-- What is written on `stderr` for those that throw.
abbrev pub line : Option Thrown → List String
line none = []
line (some unknown) = "critical logger error\n" ∷ []
line (some (exception what)) = "critical logger error: " ∷ what ∷ "\n" ∷ []

abbrev pub lines : Prints → List (Option ℕ × ℕ) → List String
lines prints [] = []
lines prints (p ∷ ps) = line (prints p.0 p.1) ++ lines prints ps
