-- ===== src/Net/Tcp/Freebsd.antt =====
-- The FreeBSD `event` of src/ice/include/ice/net/event.hpp, which the system removes once it has
-- occurred, and `connect` of src/ice/src/ice/net/tcp/socket.cpp for FreeBSD.
pub mod Transfer
pub mod Rounds
mod Tests
use ice_coroutines.Base.{
  ℕ, zero, suc, ◌==◌, Bool, true, false, not, ◌&&◌, List, [], ◌∷◌, ◌++◌, Next, goto, ret, returned,
  run, if◌then◌else◌, ◌≡◌, ◌≢◌, refl, arith,
}
use ice_coroutines.Error.{ErrorCode, no_error, of_errno, is_error}
use ice_coroutines.Net.Tcp.{
  Reply, done, failed, resumed, Errnos, Pc, calling, adding, suspended, asking, Await, stays,
  resumes,
}

-- `await_suspend`, `resume` and `await_resume`. A reply of another kind is not an answer.
unfoldable pub event_step : Pc → Reply → Await
event_step adding (done n) = stays suspended
event_step adding (failed e) = resumes (of_errno e)
event_step suspended (resumed e) = resumes no_error
event_step pc r = stays pc

-- `socket::connect`. The reply of `getsockopt` is the code that it stores.
unfoldable pub connect_step : Errnos → Pc → Reply → Next Pc ErrorCode
unfolding event_step
connect_step sys calling (done n) = ret no_error
connect_step sys calling (failed e) =
    if not (e == sys.einprogress) && not (e == sys.eintr) then ret (of_errno e) else goto adding
connect_step sys calling (resumed e) = goto calling
connect_step sys asking (done code) = if code == 0 then ret no_error else ret (of_errno code)
connect_step sys asking (failed e) = ret (of_errno e)
connect_step sys asking (resumed e) = goto asking
connect_step sys pc r = elim (event_step pc r) [
  | stays next ↦ goto next
  | resumes ec ↦ if is_error ec then ret ec else goto asking
]

-- How an attempt ends that goes on behind the call: the event cannot be added, or `getsockopt` gives a
-- code or fails.
pub data Outcome : Type 0 where
  add_fails : ℕ → Outcome
  settles ask_fails : ℕ → ℕ → Outcome

abbrev pub replies : Outcome → List Reply
replies (add_fails e) = failed e ∷ []
replies (settles x code) = done 0 ∷ resumed x ∷ done code ∷ []
replies (ask_fails x e) = done 0 ∷ resumed x ∷ failed e ∷ []

abbrev pub IsOutcome : Outcome → Type 0
IsOutcome (add_fails e) = e ≢ 0
IsOutcome (settles x code) = Unit
IsOutcome (ask_fails x e) = e ≢ 0

-- The error number that the caller is told, 0 for a connection.
abbrev pub told : Outcome → ℕ
told (add_fails e) = e
told (settles x code) = code
told (ask_fails x e) = e

module _ (sys : Errnos) where
  -- An attempt that the call leaves in progress, or that a signal interrupts, goes on.
  abbrev pub begun : Bool → ℕ
  begun interrupted = if interrupted then sys.eintr else sys.einprogress

  -- `connect` for FreeBSD waits for an attempt in progress and also for one that is interrupted,
  -- without a second call, and then returns its outcome: the error number of what failed, that of the
  -- socket, or none.
  pub freebsd_connect_lem :
      (interrupted : Bool) (o : Outcome) (rest : List Reply)
      → IsOutcome o
      → (ec : ErrorCode) × (run
            (connect_step sys)
            calling
            (failed (begun interrupted) ∷ (replies o ++ rest))
          ≡ returned ec rest)
        × (ec.value ≡ (of_errno (told o)).value)
  unfolding run connect_step
  freebsd_connect_lem true (add_fails e) rest h = (of_errno e, ground arith, refl)
  freebsd_connect_lem false (add_fails e) rest h = (of_errno e, ground arith, refl)
  freebsd_connect_lem true (settles x zero) rest h = (no_error, ground arith, refl)
  freebsd_connect_lem false (settles x zero) rest h = (no_error, ground arith, refl)
  freebsd_connect_lem true (settles x (suc c)) rest h = (of_errno (suc c), ground arith, refl)
  freebsd_connect_lem false (settles x (suc c)) rest h = (of_errno (suc c), ground arith, refl)
  freebsd_connect_lem true (ask_fails x e) rest h = (of_errno e, ground arith, refl)
  freebsd_connect_lem false (ask_fails x e) rest h = (of_errno e, ground arith, refl)
