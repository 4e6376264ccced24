-- ===== src/Ssh/Relay.antt =====
-- The callbacks that libssh2 sends and receives through, and `io`, in
-- src/ssh/src/ice/net/ssh/session.cpp: for POSIX systems, where they call the socket, and for Windows,
-- where a buffer in the session stands between them and the socket's coroutines.
pub mod Laws
use ice_coroutines.Base.{
  ℕ, zero, suc, ◌+◌, ◌-◌, ◌==◌, leb, ℤ, pos, negsuc, not, Bool, true, false, ◌&&◌, Option, some,
  List, [], ◌∷◌, ◌++◌, Bytes, length, take, Next, goto, ret, if◌then◌else◌,
}
use ice_coroutines.Error.{
  ErrorCode, no_error, is_error, of_errno, of_errc, make_error_code, of_std, Errc, eof,
}
use ice_coroutines.Error.System.{StdErrc}
use ice_coroutines.Net.Tcp.{
  Pc, calling, adding, suspended, deleting, asking, Reply as CallReply, event_step, stays, resumes,
}

-- `session::operation`.
pub data Operation : Type 0 where
  none recv send : Operation

-- What a callback of POSIX systems is at its call of `::recv` or `::send`.
pub data Reply : Type 0 where
  done failed : ℕ → Reply

-- The result of a callback, and `operation_`.
pub record Called : Type 0 where
  pub result : ℤ
  pub operation : Operation

-- `errno > 0 ? -errno : errno`.
unfoldable pub negated : ℕ → ℤ
negated zero = pos 0
negated (suc e) = negsuc e

-- `on_recv` and `on_send`, which differ in the operation that they set.
unfoldable pub callback_step : ℕ → Operation → Operation → Reply → Next Operation Called
unfolding negated
callback_step eintr kind before (done n) = ret (record { result = pos n; operation = before })
callback_step eintr kind before (failed e) =
    if e == eintr then goto before else ret (record { result = negated e; operation = kind })

unfoldable pub on_recv_step : ℕ → Operation → Reply → Next Operation Called
unfolding callback_step
on_recv_step eintr = callback_step eintr recv

unfoldable pub on_send_step : ℕ → Operation → Reply → Next Operation Called
unfolding callback_step
on_send_step eintr = callback_step eintr send

-- `recv_callback` and `send_callback`, by whether a session stands behind `*abstract`: without one they
-- call the system themselves, once, and return what it does.
abbrev called : Operation → Reply → Called
called before (done n) = record { result = pos n; operation = before }
called before (failed e) = record { result = negsuc 0; operation = before }

unfoldable pub recv_callback : ℕ → Bool → Operation → Reply → Next Operation Called
unfolding on_recv_step
recv_callback eintr session before r =
    if session then on_recv_step eintr before r else ret (called before r)

unfoldable pub send_callback : ℕ → Bool → Operation → Reply → Next Operation Called
unfolding on_send_step
send_callback eintr session before r =
    if session then on_send_step eintr before r else ret (called before r)

-- The readiness that `io` waits for: the same for both operations.
pub data Readiness : Type 0 where
  event_recv event_send : Readiness

unfoldable pub io_event : Operation → Option Readiness
io_event recv = some event_recv
io_event send = some event_recv
io_event none = Option.none

-- `io` for POSIX systems: its first place, and its steps, which are those of the event.
unfoldable pub io_start : (StdErrc → ℤ) → Operation → Next Pc ErrorCode
unfolding io_event
io_start std op = elim (io_event op) [
  | some e ↦ goto adding
  | Option.none ↦ ret (make_error_code std (of_std StdErrc.invalid_argument))
]

unfoldable pub io_step : Pc → CallReply → Next Pc ErrorCode
unfolding event_step
io_step pc r = elim (event_step pc r) [ stays next ↦ goto next | resumes ec ↦ ret ec ]

-- The members of a session for Windows; the first `size` bytes of `storage_` are its contents.
pub record Buffer : Type 0 where
  pub operation : Operation
  pub storage : Bytes
  pub size : ℕ
  pub ready : Bool

-- What a callback returns, with the bytes that it copies out of the storage.
pub data Answer : Type 0 where
  copied : Bytes → Answer
  count : ℕ → Answer
  eagain : Answer

-- `std::min(size, session.storage_.size())`.
abbrev pub storage_size : ℕ
storage_size = 4096

unfoldable pub smaller : ℕ → ℕ → ℕ
smaller a b = if leb a b then a else b

-- `on_recv(session, data, size)` for Windows.
unfoldable pub on_recv : ℕ → Buffer → Answer × Buffer
unfolding smaller
on_recv size b =
    if b.ready
    then (copied (take b.size b.storage), record b { ready = false })
    else (eagain, record b { operation = recv; size = smaller size storage_size })

-- `on_send(session, data, size)` for Windows.
unfoldable pub on_send : Bytes → Buffer → Answer × Buffer
unfolding smaller
on_send bytes b =
    if b.ready
    then (count b.size, record b { ready = false })
    else let size = smaller (length bytes) storage_size in
      (eagain, record b { operation = send; size = size; storage = take size bytes })

-- What the socket's `recv` or `send` gives `io`: the bytes received or the count sent, and the error.
pub record Moved : Type 0 where
  pub received : Bytes
  pub sent : ℕ
  pub ec : ErrorCode

-- `io` for Windows.
unfoldable pub finish_io : ErrorCode → Buffer → ErrorCode × Buffer
finish_io ec b =
    let ec' =
      if b.size == 0 && not (is_error ec) then make_error_code (λ e. pos 0) (of_errc eof) else ec in
    (ec', record b { ready = true })

unfoldable pub io : (StdErrc → ℤ) → Moved → Buffer → ErrorCode × Buffer
unfolding finish_io
io std m b = elim b.operation [
  | recv ↦ finish_io m.ec (record b { storage = m.received; size = length m.received })
  | send ↦ finish_io m.ec (record b { size = m.sent })
  | none ↦ finish_io (make_error_code std (of_std StdErrc.invalid_argument)) b
]
