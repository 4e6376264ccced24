-- ===== src/Ssh/Calls/Exec.antt =====
-- `request_pty`, `open_shell` and `exec` of src/ssh/src/ice/net/ssh/session.cpp over `loop`.
use ice_coroutines.Base.{
  ℕ, ℤ, pos, eqb_ℤ, eqb_ℤ_iff, List, [], ◌∷◌, ◌++◌, map, Next, goto, ret, ◌≡◌, ◌≢◌, arith, returned,
  run, if◌then◌else◌,
}
use ice_coroutines.Error.{ErrorCode, no_error, is_error}
use ice_coroutines.Ssh.Calls.{Reply, rc, Pc, calling, ssh_error, loop_step}
use ice_coroutines.Ssh.Calls.Laws.{eagain, waits}

-- What a stop of `exec` gets: that of its `loop`, or what `libssh2_channel_get_exit_status` returns.
pub data ExecReply : Type 0 where
  loops : Reply → ExecReply
  status : ℤ → ExecReply

pub data ExecPc : Type 0 where
  looping : Pc → ExecPc
  asking : ExecPc

-- What `exec` returns, with what `ec` is then.
pub record Executed : Type 0 where
  pub code : ℤ
  pub ec : ErrorCode

-- `EXIT_FAILURE`.
abbrev pub exit_failure : ℤ
exit_failure = pos 1

module _ (again : ℤ) where
  unfoldable pub request_pty_step : Pc → Reply → Next Pc ErrorCode
  unfolding loop_step
  request_pty_step pc r = loop_step again pc r

  unfoldable pub open_shell_step : Pc → Reply → Next Pc ErrorCode
  unfolding loop_step
  open_shell_step pc r = loop_step again pc r

  -- A reply of another kind is not an answer.
  unfoldable pub exec_step : ExecPc → ExecReply → Next ExecPc Executed
  unfolding loop_step
  exec_step (looping pc) (loops r) = elim (loop_step again pc r) [
    | goto next ↦ goto (looping next)
    | ret ec ↦ if is_error ec then ret (record { code = exit_failure; ec = ec }) else goto asking
  ]
  exec_step (looping pc) (status n) = goto (looping pc)
  exec_step asking (loops r) = goto asking
  exec_step asking (status n) = ret (record { code = n; ec = no_error })

-- What is returned, from what libssh2 returns at the end and the exit status.
abbrev pub executed : ℤ → ℤ → Executed
executed n code =
    if eqb_ℤ n (pos 0)
    then record { code = code; ec = no_error }
    else record { code = exit_failure; ec = ssh_error n }

abbrev pub replies : ℤ → ℤ → List ExecReply
replies n code = if eqb_ℤ n (pos 0) then loops (rc n) ∷ status code ∷ [] else loops (rc n) ∷ []

-- `exec` asks again after every wait, whatever error `io` had, and returns the exit status that
-- libssh2 has where the request succeeds, and otherwise `EXIT_FAILURE` and an error of the ssh category.
exec_step_lem :
    (k : ℕ) (ws : List ErrorCode) (n code : ℤ) (rest : List ExecReply)
    → n ≢ eagain k
    → run
        (exec_step (eagain k))
        (looping calling)
        (map loops (waits k ws) ++ (replies n code ++ rest))
      ≡ returned (executed n code) rest
unfolding run exec_step
exec_step_lem k [] n code rest h = ground (arith, eqb_ℤ_iff n (eagain k))
exec_step_lem k (w ∷ ws) n code rest h = ground (arith, exec_step_lem k ws n code rest h)
