-- ===== src/Log/Tests.antt =====
-- A debug entry on a terminal, two threads with a limit of 1, and a call at the limit.
use ice_coroutines.Base.{◌+◌, ◌<◌, true, false, [], ◌∷◌, ◌++◌, map, ◌≡◌, refl, arith, if◌then◌else◌}
use ice_coroutines.Terminal.Manager.{Ttys, is_tty}
use ice_coroutines.Terminal.Manager.Laws.{styled}
use ice_coroutines.Log.{debug, Entry, entry_stream, print}
use ice_coroutines.Terminal.Manager.Texts.{texts}
use ice_coroutines.Log.Laws.{line, print_lem}
use ice_coroutines.Log.Queue.{
  System, counted, entry, initial, Trace, start, next, test_below, fetch_add, post,
}
use ice_coroutines.Log.Queue.Laws.{weights, behind, queue_lem}
use ice_coroutines.Log.Wait
use ice_coroutines.Log.Wait.{returned, notified}
use ice_coroutines.Log.Wait.Laws.{notify_one-dangling}

abbrev terminal : Ttys
terminal = record { stdout_is_tty = true; stderr_is_tty = false }

abbrev hop : Entry
hop = record {
  time = "2019-04-01 12:00:00.007";
  level = debug;
  format = 0;
  message_data = "hop";
  message = "hop";
}

print_lem_example :
    (texts (print terminal hop)
      ≡ line hop (if is_tty terminal (entry_stream debug) then hop.message_data else hop.message))
    × (styled false (print terminal hop) ≡ false)
print_lem_example = print_lem terminal hop

-- Both threads have found the count below the limit.
abbrev both : System
both = record (initial 1) { count = 2; queue = counted 7 ∷ counted 8 ∷ []; posted = 7 ∷ 8 ∷ [] }

initial-both : Trace 2 (initial 1) both
initial-both =
    next
      (next
        (next
          (next
            (next (next start (test_below (ground arith) (ground arith)))
              (test_below (ground arith) (ground arith)))
            (fetch_add 1 refl))
          (fetch_add 0 refl))
        (post 7 1 refl))
      (post 8 0 refl)

queue_lem_example :
    (both.output ++ map entry both.queue ≡ both.posted)
    × (both.count ≡ both.added + (weights both.queue + weights (behind both.logger)))
    × (weights both.queue < 1 + 2)
queue_lem_example = queue_lem 2 1 both (ground arith) initial-both

notify_one-dangling_example :
    (n : Wait.System) × Wait.Trace Wait.posted n
    × (n.logger ≡ notified)
    × (n.caller ≡ returned)
    × (n.dangling ≡ true)
notify_one-dangling_example = notify_one-dangling Wait.posted Wait.start (λ e. ground arith)
