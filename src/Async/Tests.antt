-- ===== src/Async/Tests.antt =====
-- A buffer of 100 bytes whose first write takes 60.
use ice_coroutines.Base.{◌+◌, [], ◌∷◌, ◌++◌, ◌≡◌, arith, returned, run}
use ice_coroutines.Error.{no_error}
use ice_coroutines.Async.{send, told, stream_send_lem}
use ice_coroutines.Net.Tcp.{Errnos, done, send_step}
use ice_coroutines.Net.Tcp.Recv.{IsErrnos}
use ice_coroutines.Net.Tcp.Send
use ice_coroutines.Net.Tcp.Send.{blocked, left_by, writes, wrote, total}

abbrev sys : Errnos
sys = record { eintr = 4; eagain = 11; einprogress = 115 }

sys-IsErrnos : IsErrnos sys
sys-IsErrnos = record { apart = ground arith; apart_progress = ground arith }

stream_send_lem_example :
    (send (total (60 ∷ []) + 40) (
        run
          (send_step sys)
          (Send.start (left_by sys blocked) (total (60 ∷ []) + 40))
          (writes sys blocked (60 ∷ []) ++ (wrote sys blocked 40 ++ [])))
      ≡ returned no_error [])
    × ((send 100 (run (send_step sys) (Send.start 0 100) (done 40 ∷ [])))
        ≡ returned (told 0 40 100) [])
stream_send_lem_example =
    stream_send_lem sys blocked 0 100 (60 ∷ []) 40 [] sys-IsErrnos (ground arith) (ground arith)
      (ground arith, tt) (ground arith) (ground arith) (ground arith)
