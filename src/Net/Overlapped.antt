-- ===== src/Net/Overlapped.antt =====
-- Overlapped operations of Windows, as src/ice/src/ice/net/tcp/socket.cpp and
-- src/serial/src/ice/net/serial.cpp use them: a call that succeeds at once, fails, or is pending; in
-- that case the coroutine awaits an `event` and asks for the result. Each operation is a machine that
-- stops at its calls of the system.
pub mod Writes
use ice_coroutines.Base.{ℕ, ◌==◌, Next, goto, ret, if◌then◌else◌}
use ice_coroutines.Error.{ErrorCode, no_error, of_errno}

-- What a stop gets: success with a count of bytes, failure with the number of the last error, or the
-- resumption of the event.
pub data Reply : Type 0 where
  done failed : ℕ → Reply
  resumed : Reply

-- At the call, suspended on the event, or at `GetOverlappedResult`.
pub data Pc : Type 0 where
  calling awaiting finishing : Pc

-- The operation goes on, or ends with a count or an error number.
pub data Progress : Type 0 where
  stays : Pc → Progress
  completes fails : ℕ → Progress

-- What `recv` and `send` return, with the `ec` that they set.
pub record Transferred : Type 0 where
  pub count : ℕ
  pub ec : ErrorCode

-- One operation, where `pending` is `ERROR_IO_PENDING`. A reply of another kind is not an answer.
unfoldable pub io_step : ℕ → Pc → Reply → Progress
io_step pending calling (done n) = completes n
io_step pending calling (failed e) = if e == pending then stays awaiting else fails e
io_step pending calling resumed = stays calling
io_step pending awaiting resumed = stays finishing
io_step pending awaiting (done n) = stays awaiting
io_step pending awaiting (failed e) = stays awaiting
io_step pending finishing (done n) = completes n
io_step pending finishing (failed e) = fails e
io_step pending finishing resumed = stays finishing

-- `recv`.
unfoldable pub recv_step : ℕ → Pc → Reply → Next Pc Transferred
unfolding io_step
recv_step pending pc r = elim (io_step pending pc r) [
  | stays next ↦ goto next
  | completes n ↦ ret (record { count = n; ec = no_error })
  | fails e ↦ ret (record { count = 0; ec = of_errno e })
]

-- What a `send` keeps at a stop.
pub record Writing (S : Type 0) : Type 0 where
  pub pc : Pc
  pub local : S

-- The loop of `send`: `after` is what it does with the bytes of one operation, and `stop` what it
-- returns where the loop is left.
module _ {S : Type 0} (after : S → ℕ → Next S Transferred)
    (stop : S → ErrorCode → Transferred) where
  unfoldable pub write_step : ℕ → Writing S → Reply → Next (Writing S) Transferred
  unfolding io_step
  write_step pending w r = elim (io_step pending w.pc r) [
    | stays next ↦ goto (record w { pc = next })
    | fails e ↦ ret (stop w.local (of_errno e))
    | completes n ↦ if n == 0 then ret (stop w.local no_error) else elim (after w.local n) [
      | goto s ↦ goto (record { pc = calling; local = s })
      | ret t ↦ ret t
    ]
  ]
