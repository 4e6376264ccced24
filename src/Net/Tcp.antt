-- ===== src/Net/Tcp.antt =====
-- `accept`, `connect`, `recv` and `send` of src/ice/src/ice/net/tcp/socket.cpp for Linux, with the Linux
-- `event` of src/ice/include/ice/net/event.hpp that they await. Each is a machine that stops at its
-- calls of the system. `errno` is the thread's: other coroutines run while one is suspended, and
-- they may leave any value there.
pub mod Windows
pub mod Freebsd
pub mod Listen
pub mod Recv
pub mod Accept
pub mod Send
pub mod Connect
mod Tests
use ice_coroutines.Base.{
  Option, none, some, ℕ, ◌+◌, ◌==◌, ◌-◌, ◌%◌, ◌^◌, not, Next, goto, ret, if◌then◌else◌,
}
use ice_coroutines.Error.{ErrorCode, no_error, of_errno, is_error}

-- What a stop of the machine gets: a call that succeeds with a count (0 or a status 0 among them), a
-- call that returns -1 and sets `errno`, or the call of `event::resume` by the service, with what
-- `errno` is then.
pub data Reply : Type 0 where
  done failed resumed : ℕ → Reply

-- The error numbers that the code names.
pub record Errnos : Type 0 where
  pub eintr : ℕ
  pub eagain : ℕ
  pub einprogress : ℕ

-- Where a coroutine stands: at its own call, in `await_suspend` at `EPOLL_CTL_ADD`, suspended, in
-- `resume` at `EPOLL_CTL_DEL`, or (`connect` only) at `getsockopt`.
pub data Pc : Type 0 where
  calling adding suspended deleting asking : Pc

-- `co_await event`: the next place, or the error code that `await_resume` returns.
pub data Await : Type 0 where
  stays : Pc → Await
  resumes : ErrorCode → Await

-- `await_suspend`, `resume` and `await_resume`. A reply of another kind is not an answer.
unfoldable pub event_step : Pc → Reply → Await
event_step adding (done n) = stays suspended
event_step adding (failed e) = resumes (of_errno e)
event_step adding (resumed e) = stays adding
event_step suspended (resumed e) = stays deleting
event_step suspended _ = stays suspended
event_step deleting (done n) = resumes no_error
event_step deleting (failed e) = resumes (of_errno e)
event_step deleting (resumed e) = stays deleting
event_step pc r = stays pc

-- What `recv` and `send` return, with the `ec` that they set.
pub record Transferred : Type 0 where
  pub count : ℕ
  pub ec : ErrorCode

-- `size -= rc` on `std::size_t`.
abbrev pub sub64 : ℕ → ℕ → ℕ
sub64 a b = (a + (2 ^ 64 - b % 2 ^ 64)) % 2 ^ 64

-- What `send` keeps at a stop: the place, `errno`, the bytes asked for and the bytes left.
pub record Sending : Type 0 where
  pub pc : Pc
  pub errno : ℕ
  pub data_size : ℕ
  pub left : ℕ

abbrev pub sent : Sending → ErrorCode → Transferred
sent s ec = record { count = sub64 s.data_size s.left; ec = ec }

-- A failed call and a stay in the event loop change `errno`; a call that succeeds does not.
abbrev pub errno_of : Reply → ℕ → ℕ
errno_of (done n) errno = errno
errno_of (failed e) errno = e
errno_of (resumed e) errno = e

module _ (sys : Errnos) where
  -- The test of `errno` in `send`, which every round reaches but one that wrote 0 bytes, and the
  -- `while (size > 0)`, which a `continue` goes to as well.
  unfoldable pub send_test : Sending → Next Sending Transferred
  send_test s =
      if s.errno == sys.eintr
      then (if s.left == 0 then ret (sent s no_error) else goto (record s { pc = calling }))
      else if not (s.errno == sys.eagain)
      then ret (sent s (of_errno s.errno))
      else goto (record s { pc = adding })

-- The functions over the steps of the event that they await, which is that of the system.
module _ (event : Pc → Reply → Await) (sys : Errnos) where
  -- `socket::recv`, from its call of `read` on.
  unfoldable pub recv_with : Pc → Reply → Next Pc Transferred
  recv_with calling (done n) = ret (record { count = n; ec = no_error })
  recv_with calling (failed e) =
      if e == sys.eintr
      then goto calling
      else if not (e == sys.eagain)
      then ret (record { count = 0; ec = of_errno e })
      else goto adding
  recv_with calling (resumed e) = goto calling
  recv_with pc r = elim (event pc r) [
    | stays next ↦ goto next
    | resumes ec ↦ if is_error ec then ret (record { count = 0; ec = ec }) else goto calling
  ]

  -- `socket::send`, from its call of `write` on.
  unfoldable pub send_with : Sending → Reply → Next Sending Transferred
  unfolding send_test
  send_with s r = elim s.pc [
    | calling ↦ elim r [
      | done n ↦
          if n == 0
          then ret (sent s no_error)
          else send_test sys (record s { left = sub64 s.left n })
      | failed e ↦ send_test sys (record s { errno = e })
      | resumed e ↦ goto s
    ]
    | _ ↦ elim (event s.pc r) [
      | stays next ↦ goto (record s { pc = next; errno = errno_of r s.errno })
      | resumes ec ↦
          if is_error ec
          then ret (sent s ec)
          else if s.left == 0
          then ret (sent s no_error)
          else goto (record s { pc = calling; errno = errno_of r s.errno })
    ]
  ]

  -- `socket::accept`: the handle of the client that it returns, `none` for an invalid one. Before
  -- each `accept4` the size of the endpoint is set to its capacity.
  unfoldable pub accept_with : Pc → Reply → Next Pc (Option ℕ)
  accept_with calling (done h) = ret (some h)
  accept_with calling (failed e) =
      if e == sys.eintr
      then goto calling
      else if not (e == sys.eagain)
      then ret none
      else goto adding
  accept_with calling (resumed e) = goto calling
  accept_with pc r = elim (event pc r) [
    | stays next ↦ goto next
    | resumes ec ↦ if is_error ec then ret none else goto calling
  ]

module _ (sys : Errnos) where
  -- The functions for Linux.
  unfoldable pub recv_step : Pc → Reply → Next Pc Transferred
  unfolding recv_with event_step
  recv_step pc r = recv_with event_step sys pc r

  unfoldable pub send_step : Sending → Reply → Next Sending Transferred
  unfolding send_with event_step
  send_step s r = send_with event_step sys s r

  unfoldable pub accept_step : Pc → Reply → Next Pc (Option ℕ)
  unfolding accept_with event_step
  accept_step pc r = accept_with event_step sys pc r

  -- `socket::connect`. The reply of `getsockopt` is the code that it stores.
  unfoldable pub connect_step : Pc → Reply → Next Pc ErrorCode
  unfolding event_step
  connect_step calling (done n) = ret no_error
  connect_step calling (failed e) =
      if e == sys.eintr
      then goto calling
      else if not (e == sys.einprogress)
      then ret (of_errno e)
      else goto adding
  connect_step calling (resumed e) = goto calling
  connect_step asking (done code) = if code == 0 then ret no_error else ret (of_errno code)
  connect_step asking (failed e) = ret (of_errno e)
  connect_step asking (resumed e) = goto asking
  connect_step pc r = elim (event_step pc r) [
    | stays next ↦ goto next
    | resumes ec ↦ if is_error ec then ret ec else goto asking
  ]
