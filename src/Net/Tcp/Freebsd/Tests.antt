-- ===== src/Net/Tcp/Freebsd/Tests.antt =====
-- Reading, writing and accepting on FreeBSD after a wait for the event, with made-up error numbers.
use ice_coroutines.Base.{arith, ◌++◌, ◌≡◌, refl, List, [], ◌∷◌, run, returned}
use ice_coroutines.Error.{no_error}
use ice_coroutines.Net.Tcp.{Reply, done, failed, resumed, Errnos, calling}
use ice_coroutines.Net.Tcp.Freebsd.Transfer.{
  freebsd_recv_step, freebsd_send_step, freebsd_accept_step, removal, with_removals,
}
use ice_coroutines.Net.Tcp.Recv.{IsErrnos, waits, interrupted}
use ice_coroutines.Net.Tcp.Send.{start, blocked}
use ice_coroutines.Net.Tcp.Freebsd.Rounds.{
  Ending, transfers, told, client, rounds, ending, wrote, writes, freebsd_lem,
}

abbrev sys : Errnos
sys = record { eintr = 4; eagain = 35; einprogress = 36 }

sys-IsErrnos : IsErrnos sys
sys-IsErrnos = record { apart = ground arith; apart_progress = ground arith }

-- The call would block, the event is added, it occurs, and the call gives 5.
abbrev replies : List Reply
replies = failed 35 ∷ done 0 ∷ resumed 0 ∷ done 5 ∷ []

replies-recv :
    run (freebsd_recv_step sys) calling replies ≡ returned (record { count = 5; ec = no_error }) []
unfolding run freebsd_recv_step
replies-recv = refl

replies-longer :
    with_removals (λ pc. pc) (freebsd_recv_step sys) calling replies
    ≡ failed 35 ∷ done 0 ∷ resumed 0 ∷ done 0 ∷ done 5 ∷ []
unfolding with_removals removal freebsd_recv_step
replies-longer = refl

abbrev ending_five : Ending
ending_five = transfers 5

freebsd_lem_example :
    (run
        (freebsd_recv_step sys)
        calling
        (rounds sys (waits 35 ∷ interrupted ∷ []) ++ (ending sys ending_five ++ []))
      ≡ returned (told ending_five) [])
    × (run
          (freebsd_accept_step sys)
          calling
          (rounds sys (waits 35 ∷ interrupted ∷ []) ++ (ending sys ending_five ++ []))
        ≡ returned (client ending_five) [])
    × (run
          (freebsd_send_step sys)
          (start 35 7)
          (writes sys blocked (3 ∷ []) ++ (wrote sys blocked 4 ++ []))
        ≡ returned (record { count = 7; ec = no_error }) [])
freebsd_lem_example =
    freebsd_lem sys sys-IsErrnos (waits 35 ∷ interrupted ∷ []) ending_five blocked (3 ∷ []) 4 [] tt
      (ground arith, tt) (ground arith) (ground arith)
