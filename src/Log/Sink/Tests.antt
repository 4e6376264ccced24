-- ===== src/Log/Sink/Tests.antt =====
-- A sink that throws while two entries are printed.
use ice_coroutines.Base.{◌==◌, List, none, some, [], ◌∷◌, if◌then◌else◌}
use ice_coroutines.Log.Sink.{exception, Prints, Logger, Op, set, counted, awaited}

-- The sink 5 throws, and `print` does not.
abbrev broken : Prints
broken (some x) e = if x == 5 then some (exception "disk full") else none
broken none e = none

abbrev logger : Logger
logger = record { sink = none; count = 2; printed = []; errors = []; completed = [] }

abbrev ops : List Op
ops = counted 7 ∷ set (some 5) ∷ awaited 8 ∷ counted 9 ∷ []
