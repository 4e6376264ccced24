-- ===== src/Log/Stop/Tests.antt =====
-- `stop` right after the start, and a limit of 0, under which every call waits.
use ice_coroutines.Base.{◌+◌, ◌≤◌, true, false, [], ◌++◌, map, Mem, not-mem-nil, ◌≡◌, refl, arith}
use ice_coroutines.Log.Queue
use ice_coroutines.Log.Queue.{ready, entry, test_below, test_over}
use ice_coroutines.Log.Queue.Laws.{weights}
use ice_coroutines.Log.Stop.{
  checking, left, outside, System, initial, check, by_logger, calls, acquires_nothing, checks,
  stops, joins, Trace, start, next,
}
use ice_coroutines.Log.Stop.Laws.{stopped_lem}
use ice_coroutines.Log.Stop.Strands.{stranded, stop-Strands}

abbrev stopped : System
stopped = record {
  calls = Queue.initial 1;
  running = left;
  stop = true;
  joinable = false;
  stopper = outside;
}

initial-stopped : Trace 2 (initial 1) stopped
unfolding check
initial-stopped =
    next (next (next (next start (acquires_nothing refl refl refl)) (stops refl)) (checks refl))
      (joins refl refl refl)

-- A call behind the end of the logger.
abbrev later : System
later = record stopped { calls = record (Queue.initial 1) { tested = 1 } }

stopped-later : Trace 2 stopped later
unfolding by_logger
stopped-later = next start (calls _ (test_below (ground arith) (ground arith)) refl)

stopped_lem_example :
    (stopped.calls.logger ≡ ready)
    × (stopped.calls.output ++ map entry stopped.calls.queue ≡ stopped.calls.posted)
    × (stopped.calls.count ≡ stopped.calls.added + weights stopped.calls.queue)
    × (later.calls.output ≡ stopped.calls.output)
    × (later.calls.completed ≡ stopped.calls.completed)
    × (stopped.calls.count ≤ later.calls.count)
stopped_lem_example =
    stopped_lem 2 1 stopped later (ground arith) initial-stopped refl stopped-later

abbrev about_to_check : System
about_to_check = record (initial 0) {
  calls = record (Queue.initial 0) { over = 1 };
  running = checking;
}

initial-about_to_check : Trace 2 (initial 0) about_to_check
unfolding by_logger
initial-about_to_check =
    next (next start (calls _ (test_over (ground arith) (ground arith)) refl))
      (acquires_nothing refl refl refl)

none-completed : ¬ Mem 7 about_to_check.calls.completed
none-completed = not-mem-nil

stop-Strands_example :
    Trace 2 about_to_check (stranded 7 0 about_to_check)
    × ((n : System)
        → Trace 2 (stranded 7 0 about_to_check) n
        → (n.calls.output ≡ []) × Mem 7 n.calls.waiting)
stop-Strands_example = stop-Strands 2 about_to_check 7 0 refl refl refl refl none-completed
