-- ===== src/Ssh/Calls/Authenticate.antt =====
-- What `authenticate` makes of every sequence of replies.
use ice_coroutines.Base.{
  ℕ, ℤ, pos, eqb_ℤ_iff, Option, none, some, List, [], ◌∷◌, ◌++◌, append_assoc, ◌≡◌, ◌≢◌, refl, ap,
  ◌∙◌, arith, returned, run,
}
use ice_coroutines.Error.{ErrorCode, no_error}
use ice_coroutines.Ssh.Calls.{
  Reply, rc, calling, ssh_error, loop_step, LoginReply, login, channel, last_error, waited_io,
  LoginPc, logging_in, opening, asking, Login, login_step,
}
use ice_coroutines.Ssh.Calls.Laws.{eagain, waits}

abbrev pub logging : List Reply → List LoginReply
logging [] = []
logging (r ∷ rs) = login r ∷ logging rs

abbrev pub at : LoginPc → Option ℕ → List ℕ → Login
at pc held closed = record { pc = pc; held = held; closed = closed }

pub data Outcome : Type 0 where
  denied : ℤ → Outcome
  granted : List ErrorCode → ℕ → Outcome
  refused : List ErrorCode → ℤ → Outcome

abbrev pub outcome : List ℕ → Outcome → ErrorCode × Login
outcome closed (denied n) = (ssh_error n, at (logging_in calling) none closed)
outcome closed (granted vs c) = (no_error, at opening (some c) closed)
outcome closed (refused vs n) = (ssh_error n, at asking none closed)

module _ (k : ℕ) where
  -- The channel is not there yet.
  abbrev pub openings : List ErrorCode → List LoginReply
  openings [] = []
  openings (ec ∷ ecs) = channel none ∷ last_error (eagain k) ∷ waited_io ec ∷ openings ecs

  abbrev pub authenticating : List ℕ → Login
  authenticating closed = record { pc = logging_in calling; held = none; closed = closed }

  -- How it ends: the login is refused, there is a channel, or there is none and the last error is not
  -- that of a call to be repeated.
  abbrev pub answers : Outcome → List LoginReply
  answers (denied n) = login (rc n) ∷ []
  answers (granted vs c) = login (rc (pos 0)) ∷ (openings vs ++ channel (some c) ∷ [])
  answers (refused vs n) = login (rc (pos 0)) ∷ (openings vs ++ channel none ∷ last_error n ∷ [])

  abbrev pub IsOutcome : Outcome → Type 0
  IsOutcome (denied n) = (n ≢ pos 0) × (n ≢ eagain k)
  IsOutcome (granted vs c) = Unit
  IsOutcome (refused vs n) = n ≢ eagain k

  login-waits :
      (closed : List ℕ) (ws : List ErrorCode) (rest : List LoginReply)
      → run (login_step (eagain k)) (authenticating closed) (logging (waits k ws) ++ rest)
        ≡ run (login_step (eagain k)) (authenticating closed) rest
  unfolding run login_step loop_step
  login-waits closed [] rest = refl
  login-waits closed (w ∷ ws) rest = ground (arith, login-waits closed ws rest)

  login-openings :
      (closed : List ℕ) (vs : List ErrorCode) (rest : List LoginReply)
      → run (login_step (eagain k)) (at opening none closed) (openings vs ++ rest)
        ≡ run (login_step (eagain k)) (at opening none closed) rest
  unfolding run login_step
  login-openings closed [] rest = refl
  login-openings closed (v ∷ vs) rest = ground (arith, login-openings closed vs rest)

  no-channel :
      (closed : List ℕ) (n : ℤ) (rest : List LoginReply)
      → n ≢ eagain k
      → run (login_step (eagain k)) (at opening none closed) (channel none ∷ last_error n ∷ rest)
        ≡ returned (ssh_error n, at asking none closed) rest
  unfolding run login_step
  no-channel closed n rest h = ground (arith, eqb_ℤ_iff n (eagain k))

  login-answers :
      (closed : List ℕ) (o : Outcome) (rest : List LoginReply)
      → IsOutcome o
      → run (login_step (eagain k)) (authenticating closed) (answers o ++ rest)
        ≡ returned (outcome closed o) rest
  unfolding run login_step loop_step
  login-answers closed (denied n) rest h =
      ground (arith, eqb_ℤ_iff n (pos 0), eqb_ℤ_iff n (eagain k))
  login-answers closed (granted vs c) rest h =
      ap (run (login_step (eagain k)) (at opening none closed))
        (append_assoc (openings vs) (channel (some c) ∷ []) rest)
      ∙ login-openings closed vs (channel (some c) ∷ rest)
  login-answers closed (refused vs n) rest h =
      ap (run (login_step (eagain k)) (at opening none closed))
        (append_assoc (openings vs) (channel none ∷ last_error n ∷ []) rest)
      ∙ login-openings closed vs (channel none ∷ last_error n ∷ rest)
      ∙ no-channel closed n rest h

  -- `authenticate` logs in and opens a channel, each again after every wait, whatever error `io` had.
  -- It returns the error of a login that is refused; or no error, and holds the channel; or, with no
  -- channel, the last error of libssh2, which for 0 is none.
  pub login_step_lem :
      (closed : List ℕ) (ws : List ErrorCode) (o : Outcome) (rest : List LoginReply)
      → IsOutcome o
      → run
          (login_step (eagain k))
          (authenticating closed)
          (logging (waits k ws) ++ (answers o ++ rest))
        ≡ returned (outcome closed o) rest
  login_step_lem closed ws o rest h =
      login-waits closed ws (answers o ++ rest) ∙ login-answers closed o rest h
