-- ===== src/Ssh/Calls.antt =====
-- The loops of src/ssh/src/ice/net/ssh/session.cpp around calls of libssh2 that may ask to be called
-- again: `loop`, `recv`, `send` and `authenticate`.
pub mod Laws
pub mod Authenticate
pub mod Exec
use ice_coroutines.Base.{
  ℕ, ◌+◌, ◌-◌, ◌%◌, ◌^◌, ◌==◌, ℤ, pos, negsuc, eqb_ℤ, not, Option, none, some, List, [], ◌∷◌, Next,
  goto, ret, if◌then◌else◌,
}
use ice_coroutines.Error.{ErrorCode, no_error, is_error, make_error_code_in, Category}

-- What a stop gets: what the function of libssh2 returns, or the error code of `io`.
pub data Reply : Type 0 where
  rc : ℤ → Reply
  waited : ErrorCode → Reply

-- At the call of libssh2, or in `co_await io()`.
pub data Pc : Type 0 where
  calling waiting : Pc

-- `make_error_code(rc, domain_category())`, and `make_error_code(rc)`.
abbrev pub ssh_error : ℤ → ErrorCode
ssh_error n = make_error_code_in n Category.ssh

abbrev pub native_error : ℤ → ErrorCode
native_error n = make_error_code_in n Category.native

-- What `recv` and `send` return, with what `ec` is then.
pub record Transferred : Type 0 where
  pub count : ℕ
  pub ec : ErrorCode

-- `LIBSSH2_ERROR_EAGAIN`; `LIBSSH2_ERROR_NONE` is 0. A reply of another kind is not an answer.
module _ (eagain : ℤ) where
  -- `loop`.
  unfoldable pub loop_step : Pc → Reply → Next Pc ErrorCode
  loop_step calling (rc n) =
      if eqb_ℤ n (pos 0)
      then ret no_error
      else if not (eqb_ℤ n eagain)
      then ret (ssh_error n)
      else goto waiting
  loop_step calling (waited ec) = goto calling
  loop_step waiting (waited ec) = goto calling
  loop_step waiting (rc n) = goto waiting

  -- `recv(stream, data, size, ec)`, which does not clear `ec`.
  unfoldable pub recv_step : ErrorCode → Pc → Reply → Next Pc Transferred
  recv_step ec calling (rc (pos n)) = ret (record { count = n; ec = ec })
  recv_step ec calling (rc (negsuc n)) =
      if not (eqb_ℤ (negsuc n) eagain)
      then ret (record { count = 0; ec = native_error (negsuc n) })
      else goto waiting
  recv_step ec calling (waited e) = goto calling
  recv_step ec waiting (waited e) = goto calling
  recv_step ec waiting (rc n) = goto waiting

-- `data_size`, `size` and `ec` of `send`.
pub record Sending : Type 0 where
  pub pc : Pc
  pub data_size : ℕ
  pub size : ℕ
  pub ec : ErrorCode

abbrev pub sent : Sending → ErrorCode → Transferred
sent s ec = record { count = (s.data_size + (2 ^ 64 - s.size)) % 2 ^ 64; ec = ec }

-- The `while (size > 0)`, also behind a `continue`.
unfoldable pub send_test : Sending → Next Sending Transferred
send_test s = if s.size == 0 then ret (sent s s.ec) else goto (record s { pc = calling })

module _ (eagain : ℤ) where
  -- `send(stream, data, size, ec)`, which does not clear `ec`.
  unfoldable pub send_rc : Sending → ℤ → Next Sending Transferred
  unfolding send_test
  send_rc s (pos n) =
      if n == 0
      then ret (sent s s.ec)
      else send_test (record s { size = (s.size + (2 ^ 64 - n)) % 2 ^ 64 })
  send_rc s (negsuc n) =
      if not (eqb_ℤ (negsuc n) eagain)
      then ret (sent s (native_error (negsuc n)))
      else goto (record s { pc = waiting })

  unfoldable pub send_step : Sending → Reply → Next Sending Transferred
  unfolding send_test send_rc
  send_step s r = elim s.pc [
    | calling ↦ elim r [ rc n ↦ send_rc s n | waited e ↦ goto s ]
    | waiting ↦ elim r [ rc n ↦ goto s | waited e ↦ send_test s ]
  ]

-- What a stop of `authenticate` gets: that of its `loop`, the channel that
-- `libssh2_channel_open_session` returns, the last error, or the error code of `io`.
pub data LoginReply : Type 0 where
  login : Reply → LoginReply
  channel : Option ℕ → LoginReply
  last_error : ℤ → LoginReply
  waited_io : ErrorCode → LoginReply

pub data LoginPc : Type 0 where
  logging_in : Pc → LoginPc
  opening asking waiting_io : LoginPc

-- The place, `channel_`, and the channels closed so far, latest first.
pub record Login : Type 0 where
  pub pc : LoginPc
  pub held : Option ℕ
  pub closed : List ℕ

abbrev pub drop_channel : Option ℕ → List ℕ → List ℕ
drop_channel none closed = closed
drop_channel (some c) closed = c ∷ closed

module _ (eagain : ℤ) where
  -- `authenticate`.
  unfoldable pub login_step : Login → LoginReply → Next Login (ErrorCode × Login)
  unfolding loop_step
  login_step s r = elim s.pc [
    | logging_in pc ↦ elim r [
      | login l ↦ elim (loop_step eagain pc l) [
        | goto next ↦ goto (record s { pc = logging_in next })
        | ret ec ↦ if is_error ec then ret (ec, s) else goto (record s { pc = opening })
      ]
      | _ ↦ goto s
    ]
    | opening ↦ elim r [
      | channel c ↦
          let s' : Login = record s { held = c; closed = drop_channel s.held s.closed } in
          elim c [ some id ↦ ret (no_error, s') | none ↦ goto (record s' { pc = asking }) ]
      | _ ↦ goto s
    ]
    | asking ↦ elim r [
      | last_error n ↦
          if not (eqb_ℤ n eagain) then ret (ssh_error n, s) else goto (record s { pc = waiting_io })
      | _ ↦ goto s
    ]
    | waiting_io ↦ elim r [ waited_io ec ↦ goto (record s { pc = opening }) | _ ↦ goto s ]
  ]
