-- ===== src/Net/Tcp/Windows/Accept.antt =====
-- The whole of `accept` of src/ice/src/ice/net/tcp/socket.cpp for Windows: the client that it creates
-- first, the loop, and the address that it takes out of its buffer.
use ice_coroutines.Base.{
  ℕ, ◌+◌, ◌==◌, Bool, true, false, none, List, ◌++◌, Progress, waiting, returned, run,
  if◌then◌else◌, ◌≡◌, ◌≢◌, refl, ◌∙◌, arith,
}
use ice_coroutines.Error.{is_error}
use ice_coroutines.Net.Endpoint.{Platform, Endpoint}
use ice_coroutines.Net.Overlapped.{Reply, Pc, calling}
use ice_coroutines.Net.Socket.{Socket, unopened, close}
use ice_coroutines.Net.Socket.Laws.{accounted, opened}
use ice_coroutines.Net.Socket.Windows.{Calls, create, create-opened}
use ice_coroutines.Net.Tcp.Windows.{Numbers, accept_step}
use ice_coroutines.Net.Tcp.Windows.Laws.{
  Reset, resets, Accepted, accepted, IsAccepted, is_client, accept_step_lem,
}

-- The `switch` on the family of the address in the buffer.
unfoldable pub copy_address : Platform → Endpoint → Endpoint → Endpoint
copy_address os addr e =
    if addr.family_field == os.af_inet
    then record e {
      family_field = addr.family_field;
      port_field = addr.port_field;
      address4 = addr.address4;
      size = os.size_in;
    }
    else if addr.family_field == os.af_inet6
    then record e {
      family_field = addr.family_field;
      port_field = addr.port_field;
      address6 = addr.address6;
      size = os.size_in6;
    }
    else e

-- The socket that the caller gets and the one that `accept` leaves behind, whose handle its destructor
-- has closed, and the caller's endpoint.
pub record Result : Type 0 where
  pub socket : Socket
  pub local : Socket
  pub endpoint : Endpoint

module _ (os : Platform) (sys : Numbers) (calls : Calls) (addr before : Endpoint) where
  -- A client that could not be created, or was not connected: a socket with no handle.
  abbrev pub refusal : Socket → Result
  refusal client = record { socket = unopened; local = close client; endpoint = before }

  -- A client that is connected: it moves to the caller.
  abbrev pub transfer : Socket → Result
  transfer client = record {
    socket = record unopened { handle = client.handle };
    local = record client { handle = none };
    endpoint = copy_address os addr before;
  }

  -- `accept`: nothing is awaited where no client could be created.
  unfoldable pub accept : List Reply → Progress Reply Pc Result
  unfolding create copy_address
  accept replies =
      let client = create calls unopened in
      if is_error client.0
      then returned (refusal client.1) replies
      else elim (run (accept_step sys) calling replies) [
        | waiting pc ↦ waiting pc
        | returned connected rest ↦
            returned (if connected then transfer client.1 else refusal client.1) rest
      ]

  unopened-accounted : (h n : ℕ) → accounted h unopened + n ≡ n
  unfolding accounted
  unopened-accounted h n = omega arith

  -- The handle of the client is in one place, whether it is transferred or not.
  settled : (connected : Bool) (client : Socket) → Result
  settled connected client = if connected then transfer client else refusal client

  settled-accounted :
      (connected : Bool) (client : Socket) (h : ℕ)
      → accounted h (settled connected client).socket + accounted h (settled connected client).local
        ≡ accounted h client
  unfolding settled accounted close
  settled-accounted true client h = ground arith
  settled-accounted false client h = ground arith

  -- `accept` for Windows tries again however often the other side resets the connection. The caller
  -- gets the handle of the client that has been created if the operation succeeds, and otherwise a
  -- socket with none; and the handle opened is then that of the caller or closed, once. The endpoint
  -- changes only where there is a client.
  pub windows_accept_lem :
      (apart : sys.wsaeconnreset ≢ sys.error_io_pending) (rs : List Reset) (a : Accepted)
      (rest : List Reply)
      → is_error (create calls unopened).0 ≡ false
      → IsAccepted sys apart a
      → (r : Result) × (accept (resets sys apart rs ++ (accepted sys apart a ++ rest))
          ≡ returned r rest)
        × (r.socket.handle
            ≡ (if is_client sys apart a then (create calls unopened).1.handle else none))
        × (r.endpoint ≡ (if is_client sys apart a then copy_address os addr before else before))
        × ((h : ℕ) → accounted h r.socket + accounted h r.local ≡ opened h calls.socket)
  unfolding accept settled
  windows_accept_lem apart rs a rest made h =
      let client = (create calls unopened).1 in
      (
        settled (is_client sys apart a) client,
        rw made (rw (accept_step_lem sys apart rs a rest h) refl),
        ground arith,
        ground arith,
        λ k.
            settled-accounted (is_client sys apart a) client k
            ∙ create-opened calls unopened k
            ∙ unopened-accounted k (opened k calls.socket),
      )
