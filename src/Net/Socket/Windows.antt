-- ===== src/Net/Socket/Windows.antt =====
-- src/ice/src/ice/net/socket.cpp for Windows: `create` over the replies of its three calls, and the
-- operations that make one call, which is not repeated.
use ice_coroutines.Base.{ℕ, ◌+◌, some, List, ◌∷◌, ◌≡◌, arith, returned, run}
use ice_coroutines.Error.{ErrorCode, no_error, of_errno}
use ice_coroutines.Net.Socket.{Result, done, failed, Socket, drop_handle}
use ice_coroutines.Net.Socket.{Shutdown, recv, send, both, bind_step, status}
use ice_coroutines.Net.Socket.Laws.{accounted, opened, IsFinal, bind_step-IsFinal}

-- `WSASocketW`, `CreateIoCompletionPort` and `SetFileCompletionNotificationModes`.
pub record Calls : Type 0 where
  pub socket : Result
  pub attach : Result
  pub notify : Result

unfoldable pub create : Calls → Socket → ErrorCode × Socket
create c s = elim c.socket [
  | failed e ↦ (of_errno e, s)
  | done h ↦ elim c.attach [
    | failed e ↦ (of_errno e, record s { closed = h ∷ s.closed })
    | done _ ↦ elim c.notify [
      | failed e ↦ (of_errno e, record s { closed = h ∷ s.closed })
      | done _ ↦ (no_error, record s { handle = some h; closed = drop_handle s.handle s.closed })
    ]
  ]
]

-- Whichever of its calls fails, `create` for Windows loses no handle and closes none twice.
pub create-opened :
    (c : Calls) (s : Socket) (h : ℕ)
    → accounted h (create c s).1 ≡ accounted h s + opened h c.socket
unfolding create accounted
create-opened c s h = ground arith

-- `bind`, `get` and `set`, from what the call gives, with `WSAGetLastError` for `SOCKET_ERROR`.
unfoldable pub call_status : Result → ErrorCode
call_status (done n) = no_error
call_status (failed e) = of_errno e

-- The numbers `SD_RECEIVE`, `SD_SEND` and `SD_BOTH`.
pub record Directions : Type 0 where
  pub sd_receive : ℕ
  pub sd_send : ℕ
  pub sd_both : ℕ

unfoldable pub shutdown_value : Directions → Shutdown → ℕ
shutdown_value d recv = d.sd_receive
shutdown_value d send = d.sd_send
shutdown_value d both = d.sd_both

unfoldable pub shutdown : Directions → (ℕ → Result) → Shutdown → ErrorCode
unfolding shutdown_value call_status
shutdown d call direction = call_status (call (shutdown_value d direction))

-- `protocol`, from the `iProtocol` that `getsockopt` stores.
unfoldable pub protocol : Result → ℕ
protocol (done n) = n
protocol (failed e) = 0

-- Where the call of `bind` is not interrupted, both systems return the same for the same answer.
pub bind-same :
    (eintr : ℕ) (r : Result) (rest : List Result)
    → IsFinal eintr r
    → run (bind_step eintr) tt (r ∷ rest) ≡ returned (call_status r) rest
unfolding call_status status
bind-same eintr (done n) rest h = (bind_step-IsFinal eintr 0 (done n) rest h).0
bind-same eintr (failed e) rest h = (bind_step-IsFinal eintr 0 (failed e) rest h).0
