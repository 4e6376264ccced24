-- ===== src/Net/Tests.antt =====
-- A platform with made-up numbers, on which "::1" is no IPv4 address, and runs of the sockets.
use ice_coroutines.Base.{
  ◌==◌, true, false, some, [], ◌∷◌, ◌++◌, ◌+◌, Bytes, ◌≡◌, refl, arith, returned, run,
  if◌then◌else◌,
}
use ice_coroutines.Error.{ErrorCode, is_error, of_errno}
use ice_coroutines.Net.Endpoint.{
  Pton, parsed, unparsed, Platform, empty, create, contains, starts, outcome, store4, stored,
}
use ice_coroutines.Net.Endpoint.Laws.{IsPosix, NoNul, create-NoNul}
use ice_coroutines.Net.Event.{
  Trace, start, next, store, exchange_suspend, exchange_resume, resume_resume, initial, due,
  suspended, finished, resumed-once,
}
use ice_coroutines.Net.Service
use ice_coroutines.Net.Service.{Program, Polled, entries, Loop, Ended, run_step, Calls, Service}
use ice_coroutines.Net.Service.Ownership.{accounted, opened, holds}
use ice_coroutines.Net.Service.Windows
use ice_coroutines.Net.Service.Windows.Laws
use ice_coroutines.Net.Service.Freebsd
use ice_coroutines.Net.Service.Systems.{services-accounted}
use ice_coroutines.Net.Tcp.{done, Errnos, calling, recv_step, connect_step}
use ice_coroutines.Net.Socket.{Socket}
use ice_coroutines.Net.Tcp.Recv.{
  IsErrnos, waits, interrupted, transfers, rounds, ending, told, recv_lem,
}
use ice_coroutines.Net.Tcp.Connect.{settles, attempt, interruptions, errno_told, connect_lem}

-- A text that begins with 127 is an address.
abbrev pton4 : Bytes → Pton
pton4 [] = unparsed
pton4 (c ∷ rest) = if c == 127 then parsed (c ∷ rest) else unparsed

abbrev os : Platform
os = record {
  af_inet = 2;
  af_inet6 = 10;
  size_in = 16;
  size_in6 = 28;
  htons = λ p. p;
  ntohs = λ p. p;
  pton4 = pton4;
  pton6 = λ text. parsed text;
  ntop4 = λ addr. some addr;
  ntop6 = λ addr. some addr;
  beyond = 0 ∷ 0 ∷ 0 ∷ [];
}

os-IsPosix : IsPosix os
os-IsPosix = record { in_nonzero = ground arith; in6_nonzero = ground arith; ports = λ p h. refl }

-- "::1".
abbrev loopback6 : Bytes
loopback6 = b':' ∷ b':' ∷ b'1' ∷ []

loopback6-NoNul : NoNul loopback6
loopback6-NoNul = (ground arith, (ground arith, (ground arith, tt)))

create-NoNul_example :
    create os empty loopback6 80
    ≡ outcome os (os.pton4 loopback6) (store4 os empty 80 (stored os [] (os.pton4 loopback6)))
create-NoNul_example = create-NoNul os empty loopback6 80 loopback6-NoNul

abbrev local : Bytes
local = 127 ∷ 1 ∷ []

loopback6-is_error : is_error (create os empty loopback6 80).0 ≡ true
unfolding create contains starts outcome
loopback6-is_error = refl

-- A coroutine is resumed by the service, which comes second.
waited : Trace 7 initial (record {
  ready = true;
  awaiter = some 7;
  suspending = suspended;
  resuming = finished;
  resumed = some 7 ∷ [];
})
waited =
    next (next (next (next start (store refl)) (exchange_suspend refl)) (exchange_resume refl))
      (resume_resume refl)

resumed-once_example : some 7 ∷ [] ≡ due 7 suspended finished
resumed-once_example = resumed-once 7 _ waited

-- `epoll_ctl` fails for the new handles.
abbrev refused : Calls
refused = record { created = some 8; eventfd = some 9; added = false; modified = true; errno = 12 }

abbrev fresh : Service
fresh = record { handle = some 3; events = some 4; closed = [] }

abbrev port : Windows.Calls
port = record {
  startup = record { rc = 0; major = 2; minor = 2 };
  created = some 8;
  interrupted = false;
  error = 6;
}

abbrev kqueue : Freebsd.Calls
kqueue = record { created = some 8; added = false; triggered = true; errno = 12 }

services-accounted_example :
    (accounted 8 (Service.create refused fresh).1 ≡ accounted 8 fresh + opened 8 refused)
    × (accounted 8 (Windows.create port fresh).1 ≡ accounted 8 fresh + Laws.opened 8 port)
    × (accounted 8 (Freebsd.create kqueue fresh).1 ≡ accounted 8 fresh + holds 8 kqueue.created)
services-accounted_example = services-accounted refused port kqueue fresh 8

abbrev sys : Errnos
sys = record { eintr = 4; eagain = 11; einprogress = 115 }

sys-IsErrnos : IsErrnos sys
sys-IsErrnos = record { apart = ground arith; apart_progress = ground arith }

recv_lem_example :
    run
      (recv_step sys)
      calling
      (rounds sys (waits 2 ∷ interrupted ∷ []) ++ (ending sys (transfers 5) ++ done 1 ∷ []))
    ≡ returned (told sys (transfers 5)) (done 1 ∷ [])
recv_lem_example =
    recv_lem sys sys-IsErrnos (waits 2 ∷ interrupted ∷ []) (transfers 5) (done 1 ∷ []) tt

connect_lem_example :
    (ec : ErrorCode) × (run
        (connect_step sys)
        calling
        (interruptions sys 1 ++ (attempt sys (settles 0 111) ++ []))
      ≡ returned ec [])
    × (ec.value ≡ (of_errno (errno_told sys (settles 0 111))).value)
connect_lem_example = connect_lem sys sys-IsErrnos 1 (settles 0 111) [] tt

abbrev bound : Socket
bound = record { handle = some 6; family = 0; closed = [] }
