-- ===== src/Net/Tcp/Windows.antt =====
-- src/ice/src/ice/net/tcp/socket.cpp for Windows. The overlapped operations are those of
-- Net/Overlapped; the numbers of the system's errors are parameters.
pub mod Laws
pub mod Accept
use ice_coroutines.Base.{
  Bool, true, false, ℕ, ◌+◌, ◌-◌, ◌%◌, ◌^◌, ◌==◌, not, Option, none, some, List, [], ◌∷◌, Next,
  goto, ret, if◌then◌else◌,
}
use ice_coroutines.Error.{ErrorCode, no_error, of_errno, is_error}
use ice_coroutines.Net.Overlapped.{
  Reply, done, failed, resumed, Pc, calling, stays, completes, fails, io_step, Transferred,
  write_step, Writing,
}

-- `data_size` and the length in the `WSABUF`, which is a `ULONG` of 32 bits.
pub record Buffer : Type 0 where
  pub data_size : ℕ
  pub length : ℕ

unfoldable pub buffer : ℕ → Buffer
buffer size = record { data_size = size; length = size % 2 ^ 32 }

-- `static_cast<std::size_t>(size - buffer.len)`, on 64 bits.
unfoldable pub sent : Buffer → ErrorCode → Transferred
sent b ec = record { count = (b.data_size + (2 ^ 64 - b.length)) % 2 ^ 64; ec = ec }

-- `buffer.len -= bytes`, and the `while` behind it.
unfoldable pub advance : Buffer → ℕ → Next Buffer Transferred
unfolding sent
advance b n =
    let rest : Buffer = record b { length = (b.length + (2 ^ 32 - n % 2 ^ 32)) % 2 ^ 32 } in
    if rest.length == 0 then ret (sent rest no_error) else goto rest

-- `socket::send`, from its call of `WSASend` on.
unfoldable pub send_step : ℕ → Writing Buffer → Reply → Next (Writing Buffer) Transferred
unfolding advance sent write_step
send_step = write_step advance sent

-- The numbers that the code names.
pub record Numbers : Type 0 where
  pub error_io_pending : ℕ
  pub wsaeconnreset : ℕ

-- `detail::connect_ex`: its error code, from what `WSASocketW` and `WSAIoctl` do.
unfoldable pub connect_ex : Reply → Reply → ErrorCode
connect_ex (failed e) ioctl = of_errno e
connect_ex _ (failed e) = of_errno e
connect_ex _ _ = no_error

-- `socket::connect`: at its call of `bind`, or in the overlapped operation.
pub data Connecting : Type 0 where
  binding : Connecting
  connecting : Pc → Connecting

module _ (sys : Numbers) where
  unfoldable pub connect_step : Connecting → Reply → Next Connecting ErrorCode
  unfolding io_step
  connect_step binding (failed e) = ret (of_errno e)
  connect_step binding (done n) = goto (connecting calling)
  connect_step binding resumed = goto binding
  connect_step (connecting pc) r = elim (io_step sys.error_io_pending pc r) [
    | stays next ↦ goto (connecting next)
    | completes n ↦ ret no_error
    | fails e ↦ ret (of_errno e)
  ]

  -- The loop of `socket::accept` for a client that has been created: whether it is returned.
  unfoldable pub accept_step : Pc → Reply → Next Pc Bool
  unfolding io_step
  accept_step pc r = elim (io_step sys.error_io_pending pc r) [
    | stays next ↦ goto next
    | completes n ↦ ret true
    | fails e ↦ if not (e == sys.wsaeconnreset) then ret false else goto calling
  ]
