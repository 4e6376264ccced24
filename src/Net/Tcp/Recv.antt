-- ===== src/Net/Tcp/Recv.antt =====
-- What `recv` makes of every sequence of replies.
use ice_coroutines.Base.{
  ℕ, List, [], ◌∷◌, ◌++◌, append_assoc, ◌≡◌, ◌≢◌, refl, ◌∙◌, ap, arith, returned, run,
}
use ice_coroutines.Error.{no_error, of_errno}
use ice_coroutines.Net.Tcp.{
  Reply, done, failed, resumed, Errnos, calling, event_step, Transferred, recv_step,
}

-- The error numbers that the code tells apart are different.
pub record IsErrnos (sys : Errnos) : Type 0 where
  pub apart : sys.eagain ≢ sys.eintr
  pub apart_progress : sys.einprogress ≢ sys.eintr

-- The replies of one wait for the event, with what `errno` is when the service resumes.
abbrev pub wait : ℕ → List Reply
wait x = done 0 ∷ resumed x ∷ done 0 ∷ []

-- A round of `recv` that ends with another call of `read`.
pub data Round : Type 0 where
  interrupted : Round
  waits : ℕ → Round

-- The last round: a transfer, an error of the call, or an error of `epoll_ctl` on the way into the
-- wait or out of it.
pub data Ending : Type 0 where
  transfers refuses add_fails : ℕ → Ending
  delete_fails : ℕ → ℕ → Ending

module _ (sys : Errnos) where
  abbrev pub round : Round → List Reply
  round interrupted = failed sys.eintr ∷ []
  round (waits x) = failed sys.eagain ∷ wait x

  abbrev pub rounds : List Round → List Reply
  rounds [] = []
  rounds (r ∷ rs) = round r ++ rounds rs

  abbrev pub ending : Ending → List Reply
  ending (transfers n) = done n ∷ []
  ending (refuses e) = failed e ∷ []
  ending (add_fails e) = failed sys.eagain ∷ failed e ∷ []
  ending (delete_fails x e) = failed sys.eagain ∷ done 0 ∷ resumed x ∷ failed e ∷ []

  -- An error number is not 0, and that of the call is neither of those that `recv` goes on with.
  abbrev pub IsEnding : Ending → Type 0
  IsEnding (transfers n) = Unit
  IsEnding (refuses e) = (e ≢ sys.eintr) × (e ≢ sys.eagain)
  IsEnding (add_fails e) = e ≢ 0
  IsEnding (delete_fails x e) = e ≢ 0

  -- What the caller is told.
  abbrev pub told : Ending → Transferred
  told (transfers n) = record { count = n; ec = no_error }
  told (refuses e) = record { count = 0; ec = of_errno e }
  told (add_fails e) = record { count = 0; ec = of_errno e }
  told (delete_fails x e) = record { count = 0; ec = of_errno e }

  recv-round :
      IsErrnos sys
      → (r : Round) (rest : List Reply)
      → run (recv_step sys) calling (round r ++ rest) ≡ run (recv_step sys) calling rest
  unfolding run recv_step event_step
  recv-round ok interrupted rest = ground arith
  recv-round ok (waits x) rest = ground (arith, ok.apart)

  recv-rounds :
      IsErrnos sys
      → (rs : List Round) (rest : List Reply)
      → run (recv_step sys) calling (rounds rs ++ rest) ≡ run (recv_step sys) calling rest
  recv-rounds ok [] rest = refl
  recv-rounds ok (r ∷ rs) rest =
      ap (run (recv_step sys) calling) (append_assoc (round r) (rounds rs) rest)
      ∙ recv-round ok r (rounds rs ++ rest)
      ∙ recv-rounds ok rs rest

  recv-ending :
      IsErrnos sys
      → (e : Ending) (rest : List Reply) → IsEnding e
      → run (recv_step sys) calling (ending e ++ rest) ≡ returned (told e) rest
  unfolding run recv_step event_step
  recv-ending ok (transfers n) rest h = refl
  recv-ending ok (refuses e) rest h = ground arith
  recv-ending ok (add_fails e) rest h = ground (arith, ok.apart)
  recv-ending ok (delete_fails x e) rest h = ground (arith, ok.apart)

  -- `recv` takes any number of interrupted calls and of waits for the event, and then returns what
  -- the last round says: the count that `read` gave, with no error, or 0 with the error number of
  -- the call that failed. It never reports an interruption or a call that would block, and an end of
  -- the stream is a count of 0 with no error.
  pub recv_lem :
      IsErrnos sys
      → (rs : List Round) (e : Ending) (rest : List Reply) → IsEnding e
      → run (recv_step sys) calling (rounds rs ++ (ending e ++ rest)) ≡ returned (told e) rest
  recv_lem ok rs e rest h = recv-rounds ok rs (ending e ++ rest) ∙ recv-ending ok e rest h
