-- ===== src/Net/Tcp/Freebsd/Rounds.antt =====
-- What `recv`, `accept` and `send` of src/ice/src/ice/net/tcp/socket.cpp return on FreeBSD, where the system
-- removes an event that has occurred.
use ice_coroutines.Base.{
  ℕ, ◌+◌, ◌-◌, ◌<◌, ◌^◌, Option, none, some, List, [], ◌∷◌, ◌++◌, append_assoc, All, ◌≡◌, ◌≢◌, refl,
  ◌∙◌, ap, arith, returned, run,
}
use ice_coroutines.Error.{no_error, of_errno}
use ice_coroutines.Net.Tcp.{Reply, done, failed, resumed, Errnos, calling, Transferred, send_test}
use ice_coroutines.Net.Tcp.Recv.{IsErrnos, Round, interrupted, waits}
use ice_coroutines.Net.Tcp.Send
use ice_coroutines.Net.Tcp.Send.{Before, blocked, left_by, total, start, at, sub64-≤}
use ice_coroutines.Net.Tcp.Freebsd.Transfer.{
  freebsd_recv_step, freebsd_send_step, freebsd_accept_step,
}

-- The last round: a call that succeeds, an error of the call, or one of `kevent` on the way into the wait.
pub data Ending : Type 0 where
  transfers refuses add_fails : ℕ → Ending

-- What the callers of `recv` and of `accept` are told.
abbrev pub told : Ending → Transferred
told (transfers n) = record { count = n; ec = no_error }
told (refuses e) = record { count = 0; ec = of_errno e }
told (add_fails e) = record { count = 0; ec = of_errno e }

abbrev pub client : Ending → Option ℕ
client (transfers h) = some h
client _ = none

-- The replies of one wait for the event, with what `errno` is when the service resumes.
abbrev pub wait : ℕ → List Reply
wait x = done 0 ∷ resumed x ∷ []

module _ (sys : Errnos) where
  abbrev pub round : Round → List Reply
  round interrupted = failed sys.eintr ∷ []
  round (waits x) = failed sys.eagain ∷ wait x

  abbrev pub rounds : List Round → List Reply
  rounds [] = []
  rounds (r ∷ rs) = round r ++ rounds rs

  abbrev pub ending : Ending → List Reply
  ending (transfers n) = done n ∷ []
  ending (refuses e) = failed e ∷ []
  ending (add_fails e) = failed sys.eagain ∷ failed e ∷ []

  -- An error number is not 0, and that of the call is neither of those that it goes on with.
  abbrev pub IsEnding : Ending → Type 0
  IsEnding (transfers n) = Unit
  IsEnding (refuses e) = (e ≢ sys.eintr) × (e ≢ sys.eagain)
  IsEnding (add_fails e) = e ≢ 0

  -- A write, and what its round adds to it.
  abbrev pub wrote : Before → ℕ → List Reply
  wrote Send.interrupted n = done n ∷ []
  wrote blocked n = done n ∷ wait sys.eagain

  abbrev pub writes : Before → List ℕ → List Reply
  writes b [] = []
  writes b (n ∷ ns) = wrote b n ++ writes b ns

  recv-ends :
      IsErrnos sys
      → (rs : List Round) (e : Ending) (rest : List Reply) → IsEnding e
      → run (freebsd_recv_step sys) calling (rounds rs ++ (ending e ++ rest))
        ≡ returned (told e) rest
  unfolding run freebsd_recv_step
  recv-ends ok [] (transfers n) rest h = refl
  recv-ends ok [] (refuses e) rest h = ground arith
  recv-ends ok [] (add_fails e) rest h = ground (arith, ok.apart)
  recv-ends ok (interrupted ∷ rs) e rest h = ground (arith, recv-ends ok rs e rest h)
  recv-ends ok (waits x ∷ rs) e rest h = ground (arith, ok.apart, recv-ends ok rs e rest h)

  accept-ends :
      IsErrnos sys
      → (rs : List Round) (e : Ending) (rest : List Reply) → IsEnding e
      → run (freebsd_accept_step sys) calling (rounds rs ++ (ending e ++ rest))
        ≡ returned (client e) rest
  unfolding run freebsd_accept_step
  accept-ends ok [] (transfers n) rest h = refl
  accept-ends ok [] (refuses e) rest h = ground arith
  accept-ends ok [] (add_fails e) rest h = ground (arith, ok.apart)
  accept-ends ok (interrupted ∷ rs) e rest h = ground (arith, accept-ends ok rs e rest h)
  accept-ends ok (waits x ∷ rs) e rest h = ground (arith, ok.apart, accept-ends ok rs e rest h)

  wrote-some :
      IsErrnos sys
      → (b : Before) (size left n : ℕ) (rest : List Reply) → n ≢ 0
      → n < left
      → left < 2 ^ 64
      → run (freebsd_send_step sys) (at sys (left_by sys b) size left) (wrote b n ++ rest)
        ≡ run (freebsd_send_step sys) (at sys (left_by sys b) size (left - n)) rest
  unfolding run freebsd_send_step send_test
  wrote-some ok Send.interrupted size left n rest nz lt small =
      ground (arith, sub64-≤ left n, ok.apart)
  wrote-some ok blocked size left n rest nz lt small = ground (arith, sub64-≤ left n, ok.apart)

  wrote-all :
      IsErrnos sys
      → (b : Before) (size n : ℕ) (rest : List Reply) → n ≢ 0
      → n < 2 ^ 64
      → size < 2 ^ 64
      → run (freebsd_send_step sys) (at sys (left_by sys b) size n) (wrote b n ++ rest)
        ≡ returned (record { count = size; ec = no_error }) rest
  unfolding run freebsd_send_step send_test
  wrote-all ok Send.interrupted size n rest nz ns small =
      ground (arith, sub64-≤ n n, sub64-≤ size 0, ok.apart)
  wrote-all ok blocked size n rest nz ns small =
      ground (arith, sub64-≤ n n, sub64-≤ size 0, ok.apart)

  send-left :
      IsErrnos sys
      → (b : Before) (size left : ℕ) (ns : List ℕ) (n : ℕ) (rest : List Reply) → All (λ k. k ≢ 0) ns
      → n ≢ 0
      → left ≡ total ns + n
      → left < 2 ^ 64
      → size < 2 ^ 64
      → run
          (freebsd_send_step sys)
          (at sys (left_by sys b) size left)
          (writes b ns ++ (wrote b n ++ rest))
        ≡ returned (record { count = size; ec = no_error }) rest
  send-left ok b size left [] n rest nzs nz sum ls small =
      let last : left ≡ n = omega arith in
      rw last (wrote-all ok b size n rest nz (omega arith) small)
  send-left ok b size left (k ∷ ns) n rest nzs nz sum ls small =
      ap (run (freebsd_send_step sys) (at sys (left_by sys b) size left))
        (append_assoc (wrote b k) (writes b ns) (wrote b n ++ rest))
      ∙ wrote-some ok b size left k (writes b ns ++ (wrote b n ++ rest)) nzs.0 (omega arith) ls
      ∙ send-left ok b size (left - k) ns n rest nzs.1 nz (omega arith) (omega arith) small

  -- On FreeBSD, where `EAGAIN` and `EINPROGRESS` are other numbers than `EINTR`: `recv` and `accept` go on behind any number of interrupted calls and of waits for the event, and
  -- then return what the last round says: the count that `read` gave with no error, and the client; or, where
  -- the call or `kevent` failed, 0 with its error number, and no client. And on a thread whose `errno` is
  -- `EINTR`, or is `EAGAIN` and is that again after each wait, `send` goes on until all is written, in
  -- writes of any sizes that are not 0 and less than 2 ^ 64 together, and returns the size asked for with no error.
  pub freebsd_lem :
      IsErrnos sys
      → (rs : List Round) (e : Ending) (b : Before) (ns : List ℕ) (n : ℕ) (rest : List Reply)
      → IsEnding e
      → All (λ k. k ≢ 0) ns
      → n ≢ 0
      → total ns + n < 2 ^ 64
      → (run (freebsd_recv_step sys) calling (rounds rs ++ (ending e ++ rest))
          ≡ returned (told e) rest)
        × (run (freebsd_accept_step sys) calling (rounds rs ++ (ending e ++ rest))
            ≡ returned (client e) rest)
        × (run
              (freebsd_send_step sys)
              (start (left_by sys b) (total ns + n))
              (writes b ns ++ (wrote b n ++ rest))
            ≡ returned (record { count = total ns + n; ec = no_error }) rest)
  freebsd_lem ok rs e b ns n rest h nzs nz small = (
    recv-ends ok rs e rest h,
    accept-ends ok rs e rest h,
    send-left ok b (total ns + n) (total ns + n) ns n rest nzs nz refl small small,
  )
