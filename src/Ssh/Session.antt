-- ===== src/Ssh/Session.antt =====
-- The handles of `session` in src/ssh/src/ice/net/ssh/session.cpp: `connect`, `disconnect`, `close`
-- and the moves, for POSIX systems. What the calls of libssh2, of the socket and the awaited loops
-- give is a parameter.
pub mod Laws
pub mod Moves
use ice_coroutines.Base.{
  ℕ, ◌==◌, ℤ, pos, eqb_ℤ, not, Bool, true, false, ◌&&◌, Option, none, some, List, [], ◌∷◌,
  if◌then◌else◌,
}
use ice_coroutines.Error.{ErrorCode, no_error, of_errno, is_error}
use ice_coroutines.Ssh.Calls.{ssh_error}

-- What a handle object of `session` owns.
pub data Resource : Type 0 where
  socket session channel : ℕ → Resource

-- The three handles, and what their deleters have closed, latest first.
pub record Session : Type 0 where
  pub socket_handle : Option ℕ
  pub session_handle : Option ℕ
  pub channel_handle : Option ℕ
  pub closed : List Resource

abbrev pub drop_handle : (ℕ → Resource) → Option ℕ → List Resource → List Resource
drop_handle kind none closed = closed
drop_handle kind (some h) closed = kind h ∷ closed

-- `operator bool`.
abbrev pub is_valid : Option ℕ → Bool
is_valid none = false
is_valid (some h) = true

unfoldable pub is_open : Session → Bool
is_open s = is_valid s.socket_handle && is_valid s.session_handle && is_valid s.channel_handle

-- The `reset()` and `close()` of the three members.
unfoldable pub reset_channel : Session → Session
reset_channel s = record s {
  channel_handle = none;
  closed = drop_handle channel s.channel_handle s.closed;
}

unfoldable pub reset_session : Session → Session
reset_session s = record s {
  session_handle = none;
  closed = drop_handle session s.session_handle s.closed;
}

unfoldable pub close_socket : Session → Session
close_socket s = record s {
  socket_handle = none;
  closed = drop_handle socket s.socket_handle s.closed;
}

-- `session::close`. A member that is not valid has nothing to reset.
unfoldable pub close : Session → Session
unfolding reset_channel reset_session close_socket
close s = close_socket (reset_session (reset_channel s))

-- What the calls of `connect` give: the error of `libssh2_init`, the socket or the `errno` of its
-- creation, the session or none, the status of `libssh2_session_flag`, and the error codes of the
-- socket's `connect` and of the loop around the handshake.
pub record Calls : Type 0 where
  pub library : ErrorCode
  pub opened_socket : Option ℕ
  pub errno : ℕ
  pub opened_session : Option ℕ
  pub flag : ℤ
  pub connected : ErrorCode
  pub handshake : ErrorCode

-- `LIBSSH2_ERROR_ALLOC` is a parameter.
module _ (error_alloc : ℤ) (c : Calls) where
  -- `connect` from the check of the session on, with the local handles of socket and session: the
  -- locals are closed in the opposite order, unless they have been moved into the members.
  unfoldable pub handshake : ℕ → ℕ → Session → ErrorCode × Session
  unfolding reset_session close_socket
  handshake k h s =
      if not (eqb_ℤ c.flag (pos 0))
      then (ssh_error c.flag, record s { closed = socket k ∷ session h ∷ s.closed })
      else if is_error c.connected
      then (c.connected, record s { closed = socket k ∷ session h ∷ s.closed })
      else let s1 : Session = record s {
        session_handle = some h;
        closed = drop_handle session s.session_handle s.closed;
      } in
        let s2 : Session = record s1 {
          socket_handle = some k;
          closed = drop_handle socket s1.socket_handle s1.closed;
        } in
        if is_error c.handshake
        then (c.handshake, close_socket (reset_session s2))
        else (no_error, s2)

  -- `connect`.
  unfoldable pub connect : Session → ErrorCode × Session
  unfolding close handshake
  connect s = if is_error c.library then (c.library, s) else elim c.opened_socket [
    | none ↦ (of_errno c.errno, close s)
    | some k ↦ elim c.opened_session [
      | none ↦
          let s' = close s in (ssh_error error_alloc, record s' { closed = socket k ∷ s'.closed })
      | some h ↦ handshake k h (close s)
    ]
  ]

-- How `disconnect` ends: with an error, or by running off the end of a coroutine that has a value to
-- return.
pub data Ended : Type 0 where
  returned : ErrorCode → Ended
  fell_off : Ended

-- `disconnect`, from the error codes of its two loops.
unfoldable pub disconnect : ErrorCode → ErrorCode → Session → Ended × Session
unfolding reset_channel reset_session close_socket
disconnect channel_ec session_ec s =
    if is_valid s.channel_handle && is_error channel_ec
    then (returned channel_ec, s)
    else let s1 = reset_channel s in
      if is_valid s.session_handle && is_error session_ec
      then (returned session_ec, s1)
      else (fell_off, close_socket (reset_session s1))
