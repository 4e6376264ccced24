-- ===== src/Net/Tcp/Tests.antt =====
-- Sockets of Windows with made-up numbers.
use ice_coroutines.Base.{◌+◌, [], ◌∷◌, ◌++◌, ◌≡◌, ◌≢◌, arith, returned, run}
use ice_coroutines.Error.{of_errno}
use ice_coroutines.Net.Overlapped.Writes.{at_once, later, breaks, operations, ending}
use ice_coroutines.Net.Tcp.Windows.{Numbers, send_step}
use ice_coroutines.Net.Tcp.Windows.Laws.{
  sending, send_step_lem, at_call, after_wait, client, resets, accepted,
}
use ice_coroutines.Base.{ℕ, false, none, refl, if◌then◌else◌}
use ice_coroutines.Error.{is_error}
use ice_coroutines.Net.Endpoint.{Platform, Endpoint, empty, unparsed}
use ice_coroutines.Net.Socket
use ice_coroutines.Net.Socket.{unopened}
use ice_coroutines.Net.Socket.Laws.{accounted, opened}
use ice_coroutines.Net.Socket.Windows.{Calls, create}
use ice_coroutines.Net.Tcp.Windows.Accept
use ice_coroutines.Net.Tcp.Windows.Accept.{copy_address, accept, windows_accept_lem}
use ice_coroutines.Net.Tcp.Windows.Laws.{Accepted, is_client}

abbrev numbers : Numbers
numbers = record { error_io_pending = 997; wsaeconnreset = 10054 }

send_step_lem_example :
    run
      (send_step 997)
      (sending 10)
      (operations 997 (at_once 4 ∷ later 3 ∷ []) ++ (ending 997 (breaks 64) ++ []))
    ≡ returned (record { count = 7; ec = of_errno 64 }) []
send_step_lem_example =
    send_step_lem 997 10 (at_once 4 ∷ later 3 ∷ []) (breaks 64) []
      (ground arith, (ground arith, tt)) tt (ground arith) (ground arith)

numbers-apart : numbers.wsaeconnreset ≢ numbers.error_io_pending
numbers-apart = ground arith

-- The client has the handle 8.
abbrev created : Calls
created = record { socket = Socket.done 8; attach = Socket.done 1; notify = Socket.done 1 }

created-ok : is_error (create created unopened).0 ≡ false
unfolding create
created-ok = refl

abbrev platform : Platform
platform = record {
  af_inet = 2;
  af_inet6 = 23;
  size_in = 16;
  size_in6 = 28;
  htons = λ p. p;
  ntohs = λ p. p;
  pton4 = λ text. unparsed;
  pton6 = λ text. unparsed;
  ntop4 = λ addr. none;
  ntop6 = λ addr. none;
  beyond = 0 ∷ 0 ∷ 0 ∷ [];
}

abbrev remote : Endpoint
remote = record { family_field = 2; port_field = 80; address4 = 127 ∷ []; address6 = []; size = 0 }

abbrev after : Accepted
after = client (later 0)

windows_accept_lem_example :
    (r : Accept.Result) × (accept platform numbers created remote empty (
        resets numbers numbers-apart (at_call ∷ after_wait ∷ [])
        ++ (accepted numbers numbers-apart after ++ []))
      ≡ returned r [])
    × (r.socket.handle ≡ (
        if is_client numbers numbers-apart after then (create created unopened).1.handle else none))
    × (r.endpoint ≡ (
        if is_client numbers numbers-apart after
        then copy_address platform remote empty
        else empty))
    × ((h : ℕ) → accounted h r.socket + accounted h r.local ≡ opened h created.socket)
windows_accept_lem_example =
    windows_accept_lem platform numbers created remote empty numbers-apart
      (at_call ∷ after_wait ∷ []) after [] created-ok tt
