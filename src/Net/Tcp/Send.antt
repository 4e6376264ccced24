-- ===== src/Net/Tcp/Send.antt =====
-- What `send` makes of the `errno` that it finds.
use ice_coroutines.Base.{
  ℕ, ◌+◌, ◌-◌, ◌≤◌, ◌<◌, ◌^◌, List, [], ◌∷◌, ◌++◌, append_assoc, All, ◌≡◌, ◌≢◌, ◌∙◌, ap, arith, ret,
  returned, run, run-ret,
}
use ice_coroutines.Error.{no_error, of_errno}
use ice_coroutines.Net.Tcp.{
  Reply, done, Errnos, calling, event_step, Sending, sub64, send_test, send_step,
}
use ice_coroutines.Net.Tcp.Recv.{IsErrnos, wait}

-- `send` at its first call, on a thread with that `errno`.
abbrev pub start : ℕ → ℕ → Sending
start errno size = record { pc = calling; errno = errno; data_size = size; left = size }

pub sub64-≤ : (a b : ℕ) → b ≤ a → a < 2 ^ 64 → sub64 a b ≡ a - b
sub64-≤ a b le small = omega arith

counted : (size n : ℕ) → n ≤ size → size < 2 ^ 64 → sub64 size (sub64 size n) ≡ n
counted size n le small = omega arith

abbrev pub total : List ℕ → ℕ
total [] = 0
total (n ∷ ns) = n + total ns

-- What the last call that failed met.
pub data Before : Type 0 where
  interrupted blocked : Before

module _ (sys : Errnos) where
  wrote_stale :
      (s : Sending) (n : ℕ)
      → n ≢ 0
      → s.errno ≢ sys.eintr
      → s.errno ≢ sys.eagain
      → send_step sys (record s { pc = calling }) (done n)
        ≡ ret (record { count = sub64 s.data_size (sub64 s.left n); ec = of_errno s.errno })
  unfolding send_step send_test
  wrote_stale s n nz ni na = ground arith

  -- On a thread whose `errno` is neither `EINTR` nor `EAGAIN`, 0 for one, the first write that takes
  -- some bytes ends `send`, however many are left: it returns the count of that write, and as its
  -- error the number that some earlier call left, which for 0 is none.
  pub send-stale :
      (errno size n : ℕ) (rest : List Reply)
      → errno ≢ sys.eintr
      → errno ≢ sys.eagain
      → n ≢ 0
      → n ≤ size
      → size < 2 ^ 64
      → run (send_step sys) (start errno size) (done n ∷ rest)
        ≡ returned (record { count = n; ec = of_errno errno }) rest
  send-stale errno size n rest ni na nz le small =
      run-ret (send_step sys) {s = start errno size} {r = done n} rest
        (wrote_stale (start errno size) n nz ni na)
      ∙ ap (λ c. returned (record { count = c; ec = of_errno errno }) rest)
          (counted size n le small)

  -- One write, and what its round adds to it: nothing behind an interruption, and a wait for the
  -- event behind a call that would have blocked.
  abbrev pub left_by : Before → ℕ
  left_by interrupted = sys.eintr
  left_by blocked = sys.eagain

  abbrev pub wrote : Before → ℕ → List Reply
  wrote interrupted n = done n ∷ []
  wrote blocked n = done n ∷ wait sys.eagain

  abbrev pub writes : Before → List ℕ → List Reply
  writes b [] = []
  writes b (n ∷ ns) = wrote b n ++ writes b ns

  -- A state of `send` that has some bytes left.
  abbrev pub at : ℕ → ℕ → ℕ → Sending
  at errno size left = record { pc = calling; errno = errno; data_size = size; left = left }

  wrote-some :
      IsErrnos sys
      → (b : Before) (size left n : ℕ) (rest : List Reply) → n ≢ 0
      → n < left
      → left < 2 ^ 64
      → run (send_step sys) (at (left_by b) size left) (wrote b n ++ rest)
        ≡ run (send_step sys) (at (left_by b) size (left - n)) rest
  unfolding run send_step send_test event_step
  wrote-some ok interrupted size left n rest nz lt small = ground (arith, sub64-≤ left n, ok.apart)
  wrote-some ok blocked size left n rest nz lt small = ground (arith, sub64-≤ left n, ok.apart)

  wrote-all :
      IsErrnos sys
      → (b : Before) (size n : ℕ) (rest : List Reply) → n ≢ 0
      → n < 2 ^ 64
      → size < 2 ^ 64
      → run (send_step sys) (at (left_by b) size n) (wrote b n ++ rest)
        ≡ returned (record { count = size; ec = no_error }) rest
  unfolding run send_step send_test event_step
  wrote-all ok interrupted size n rest nz ns small =
      ground (arith, sub64-≤ n n, sub64-≤ size 0, ok.apart)
  wrote-all ok blocked size n rest nz ns small =
      ground (arith, sub64-≤ n n, sub64-≤ size 0, ok.apart)

  send-left :
      IsErrnos sys
      → (b : Before) (size left : ℕ) (ns : List ℕ) (n : ℕ) (rest : List Reply) → All (λ k. k ≢ 0) ns
      → n ≢ 0
      → left ≡ total ns + n
      → left < 2 ^ 64
      → size < 2 ^ 64
      → run (send_step sys) (at (left_by b) size left) (writes b ns ++ (wrote b n ++ rest))
        ≡ returned (record { count = size; ec = no_error }) rest
  send-left ok b size left [] n rest nzs nz sum ls small =
      let last : left ≡ n = omega arith in
      rw last (wrote-all ok b size n rest nz (omega arith) small)
  send-left ok b size left (k ∷ ns) n rest nzs nz sum ls small =
      ap (run (send_step sys) (at (left_by b) size left))
        (append_assoc (wrote b k) (writes b ns) (wrote b n ++ rest))
      ∙ wrote-some ok b size left k (writes b ns ++ (wrote b n ++ rest)) nzs.0 (omega arith) ls
      ∙ send-left ok b size (left - k) ns n rest nzs.1 nz (omega arith) (omega arith) small

  -- On a thread whose `errno` is `EINTR`, or is `EAGAIN` and is that again after each wait for the
  -- event, `send` goes on until all is written: for writes of any sizes that are not 0 and add up
  -- to the size asked for, it returns that size and no error.
  pub send_lem :
      IsErrnos sys
      → (b : Before) (size : ℕ) (ns : List ℕ) (n : ℕ) (rest : List Reply) → All (λ k. k ≢ 0) ns
      → n ≢ 0
      → size ≡ total ns + n
      → size < 2 ^ 64
      → run (send_step sys) (start (left_by b) size) (writes b ns ++ (wrote b n ++ rest))
        ≡ returned (record { count = size; ec = no_error }) rest
  send_lem ok b size ns n rest nzs nz sum small =
      send-left ok b size size ns n rest nzs nz sum small small
