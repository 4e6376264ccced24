-- ===== src/Net/Tcp/Connect.antt =====
-- What `connect` makes of every sequence of replies.
use ice_coroutines.Base.{ℕ, zero, suc, List, [], ◌∷◌, ◌++◌, ◌≡◌, ◌≢◌, refl, arith, returned, run}
use ice_coroutines.Error.{ErrorCode, no_error, of_errno}
use ice_coroutines.Net.Tcp.{Reply, done, failed, resumed, Errnos, calling, event_step, connect_step}
use ice_coroutines.Net.Tcp.Recv.{IsErrnos, wait}

-- How an attempt ends: at once, with an error of the call, or in progress. Behind that, `epoll_ctl`
-- may fail on the way into the wait or out of it, and `getsockopt` gives a code or fails.
pub data Attempt : Type 0 where
  connects : Attempt
  refuses add_fails : ℕ → Attempt
  delete_fails settles ask_fails : ℕ → ℕ → Attempt

module _ (sys : Errnos) where
  abbrev pub attempt : Attempt → List Reply
  attempt connects = done 0 ∷ []
  attempt (refuses e) = failed e ∷ []
  attempt (add_fails e) = failed sys.einprogress ∷ failed e ∷ []
  attempt (delete_fails x e) = failed sys.einprogress ∷ done 0 ∷ resumed x ∷ failed e ∷ []
  attempt (settles x code) = failed sys.einprogress ∷ (wait x ++ done code ∷ [])
  attempt (ask_fails x e) = failed sys.einprogress ∷ (wait x ++ failed e ∷ [])

  abbrev pub IsAttempt : Attempt → Type 0
  IsAttempt connects = Unit
  IsAttempt (refuses e) = (e ≢ sys.eintr) × (e ≢ sys.einprogress)
  IsAttempt (add_fails e) = e ≢ 0
  IsAttempt (delete_fails x e) = e ≢ 0
  IsAttempt (settles x code) = Unit
  IsAttempt (ask_fails x e) = e ≢ 0

  -- The error number that the caller is told, 0 for a connection.
  abbrev pub errno_told : Attempt → ℕ
  errno_told connects = 0
  errno_told (refuses e) = e
  errno_told (add_fails e) = e
  errno_told (delete_fails x e) = e
  errno_told (settles x code) = code
  errno_told (ask_fails x e) = e

  abbrev pub interruptions : ℕ → List Reply
  interruptions zero = []
  interruptions (suc n) = failed sys.eintr ∷ interruptions n

  connect-attempt :
      IsErrnos sys
      → (a : Attempt) (rest : List Reply) → IsAttempt a
      → (ec : ErrorCode) × (run (connect_step sys) calling (attempt a ++ rest) ≡ returned ec rest)
        × (ec.value ≡ (of_errno (errno_told a)).value)
  unfolding run connect_step event_step
  connect-attempt ok connects rest h = (no_error, refl, refl)
  connect-attempt ok (refuses e) rest h = (of_errno e, ground arith, refl)
  connect-attempt ok (add_fails e) rest h = (of_errno e, ground (arith, ok.apart_progress), refl)
  connect-attempt ok (delete_fails x e) rest h =
      (of_errno e, ground (arith, ok.apart_progress), refl)
  connect-attempt ok (settles x zero) rest h = (no_error, ground (arith, ok.apart_progress), refl)
  connect-attempt ok (settles x (suc code)) rest h =
      (of_errno (suc code), ground (arith, ok.apart_progress), refl)
  connect-attempt ok (ask_fails x e) rest h = (of_errno e, ground (arith, ok.apart_progress), refl)

  -- However often the call is interrupted, `connect` returns, and its value is 0 if the connection
  -- stands and otherwise the error number of the call that failed or the code that the socket has:
  -- an attempt in progress is waited for, and its outcome is that of `SO_ERROR`.
  pub connect_lem :
      IsErrnos sys
      → (n : ℕ) (a : Attempt) (rest : List Reply) → IsAttempt a
      → (ec : ErrorCode) × (run (connect_step sys) calling (interruptions n ++ (attempt a ++ rest))
          ≡ returned ec rest)
        × (ec.value ≡ (of_errno (errno_told a)).value)
  unfolding run connect_step
  connect_lem ok zero a rest h = connect-attempt ok a rest h
  connect_lem ok (suc n) a rest h =
      let (ec, returns, value) = connect_lem ok n a rest h in (ec, ground (arith, returns), value)
