-- ===== src/Net/Tcp/Windows/Laws.antt =====
-- What `send`, `connect` and `accept` for Windows make of every sequence of replies.
use ice_coroutines.Base.{
  ℕ, ◌+◌, ◌-◌, ◌%◌, ◌^◌, ◌≤◌, ◌<◌, Bool, true, false, List, [], ◌∷◌, ◌++◌, append_assoc, All, ◌≡◌,
  ◌≢◌, refl, ap, ◌∙◌, arith, goto, ret, returned, run,
}
use ice_coroutines.Error.{ErrorCode, no_error, of_errno}
use ice_coroutines.Net.Overlapped.{
  Reply, done, failed, resumed, calling, io_step, Writing, write_step,
}
use ice_coroutines.Net.Overlapped.Writes.{
  Operation, at_once, later, bytes, total, Ending, told, last, IsEnding, operation, operations,
  ending, write-operations, last-le,
}
use ice_coroutines.Net.Tcp.Windows.{
  Buffer, buffer, sent, advance, send_step, Numbers, binding, connect_step, accept_step,
}

abbrev at : ℕ → ℕ → Buffer
at size left = record { data_size = size; length = left }

advance_partly :
    (size left n : ℕ)
    → n ≢ 0
    → n < left
    → left < 2 ^ 32
    → advance (at size left) n ≡ goto (at size (left - n))
unfolding advance
advance_partly size left n nz lt small =
    let rest : (left + (2 ^ 32 - n % 2 ^ 32)) % 2 ^ 32 ≡ left - n = omega arith in
    ground (arith, rest)

advance_wholly :
    (size n : ℕ) → n ≢ 0 → n < 2 ^ 32 → advance (at size n) n ≡ ret (sent (at size 0) no_error)
unfolding advance
advance_wholly size n nz small =
    let rest : (n + (2 ^ 32 - n % 2 ^ 32)) % 2 ^ 32 ≡ 0 = omega arith in ground (arith, rest)

abbrev pub sending : ℕ → Writing Buffer
sending size = record { pc = calling; local = buffer size }

sending-small :
    (size : ℕ) → size < 2 ^ 32 → sending size ≡ record { pc = calling; local = at size size }
unfolding buffer
sending-small size small = let e : size % 2 ^ 32 ≡ size = omega arith in rw e refl

sent-count :
    (size left : ℕ) (ec : ErrorCode)
    → left ≤ size
    → size < 2 ^ 32
    → sent (at size left) ec ≡ record { count = size - left; ec = ec }
unfolding sent
sent-count size left ec le small =
    let e : (size + (2 ^ 64 - left)) % 2 ^ 64 ≡ size - left = omega arith in rw e refl

-- For fewer than 2 ^ 32 bytes, `send` goes on over any number of operations that write some of them,
-- at once or after a wait, and returns the count of all that was written: everything, where an
-- operation writes all that is left, and otherwise, with the error of the operation that failed or
-- with none where one writes nothing, what the operations before it have written.
pub send_step_lem :
    (pending size : ℕ) (os : List Operation) (e : Ending) (rest : List Reply)
    → All (λ o. bytes o ≢ 0) os
    → IsEnding pending (size - total os) e
    → total os < size
    → size < 2 ^ 32
    → run (send_step pending) (sending size) (operations pending os ++ (ending pending e ++ rest))
      ≡ returned (record { count = total os + last e; ec = told e }) rest
unfolding send_step
send_step_lem pending size os e rest nz h lt small =
    let le = last-le pending (size - total os) e h in
    let left : size - (size - total os - last e) ≡ total os + last e = omega arith in
    rw (sending-small size small) (
      write-operations pending advance sent (at size) (2 ^ 32) (advance_partly size)
        (advance_wholly size) os e size rest nz h lt small)
    ∙ ap (λ t. returned t rest)
        (sent-count size (size - total os - last e) (told e) (omega arith) small ∙ rw left refl)

buffer-remainder : (size n : ℕ) → n ≡ size % 2 ^ 32 → buffer size ≡ at size n
unfolding buffer
buffer-remainder size n part = rw part refl

sent_whole :
    (size : ℕ) → size < 2 ^ 64 → sent (at size 0) no_error ≡ record { count = size; ec = no_error }
unfolding sent
sent_whole size small = let e : (size + (2 ^ 64 - 0)) % 2 ^ 64 ≡ size = omega arith in rw e refl

-- From 2 ^ 32 bytes on `send` takes the remainder for the whole: once the remainder is written, it
-- returns the full size and no error.
send_step-wraps :
    (pending size n : ℕ) (rest : List Reply)
    → 2 ^ 32 ≤ size
    → size < 2 ^ 64
    → n ≡ size % 2 ^ 32
    → run (send_step pending) (sending size) (done n ∷ rest)
      ≡ returned (record { count = size; ec = no_error }) rest
unfolding send_step run write_step io_step
send_step-wraps pending size n rest large small part =
    let whole = sent_whole size small in
    rw (buffer-remainder size n part) (ground (arith, advance_wholly size n, whole))

-- How `connect` ends: `bind` fails, or the operation succeeds or fails, at once or after a wait.
pub data Connected : Type 0 where
  unbound refused broken : ℕ → Connected
  connected : Operation → Connected

abbrev pub connect_replies : Numbers → Connected → List Reply
connect_replies sys (unbound e) = failed e ∷ []
connect_replies sys (refused e) = done 0 ∷ failed e ∷ []
connect_replies sys (broken e) = done 0 ∷ failed sys.error_io_pending ∷ resumed ∷ failed e ∷ []
connect_replies sys (connected o) = done 0 ∷ operation sys.error_io_pending o

abbrev pub connect_told : Connected → ErrorCode
connect_told (unbound e) = of_errno e
connect_told (refused e) = of_errno e
connect_told (broken e) = of_errno e
connect_told (connected o) = no_error

abbrev pub IsConnected : Numbers → Connected → Type 0
IsConnected sys (refused e) = e ≢ sys.error_io_pending
IsConnected sys _ = Unit

-- `connect` returns the error of its `bind` or of its overlapped operation, and none if both
-- succeed, at once or after a wait.
pub connect_step_lem :
    (sys : Numbers) (c : Connected) (rest : List Reply)
    → IsConnected sys c
    → run (connect_step sys) binding (connect_replies sys c ++ rest)
      ≡ returned (connect_told c) rest
unfolding run connect_step io_step
connect_step_lem sys (unbound e) rest h = refl
connect_step_lem sys (refused e) rest h = ground arith
connect_step_lem sys (broken e) rest h = ground arith
connect_step_lem sys (connected (at_once n)) rest h = refl
connect_step_lem sys (connected (later n)) rest h = ground arith

-- A round of `accept` that the other side resets.
pub data Reset : Type 0 where
  at_call after_wait : Reset

-- The last round: a client, at once or after a wait, or another error.
pub data Accepted : Type 0 where
  client : Operation → Accepted
  refused broken : ℕ → Accepted

module _ (sys : Numbers) (apart : sys.wsaeconnreset ≢ sys.error_io_pending) where
  abbrev pub reset : Reset → List Reply
  reset at_call = failed sys.wsaeconnreset ∷ []
  reset after_wait = failed sys.error_io_pending ∷ resumed ∷ failed sys.wsaeconnreset ∷ []

  abbrev pub resets : List Reset → List Reply
  resets [] = []
  resets (r ∷ rs) = reset r ++ resets rs

  abbrev pub accepted : Accepted → List Reply
  accepted (client o) = operation sys.error_io_pending o
  accepted (refused e) = failed e ∷ []
  accepted (broken e) = failed sys.error_io_pending ∷ resumed ∷ failed e ∷ []

  abbrev pub IsAccepted : Accepted → Type 0
  IsAccepted (client o) = Unit
  IsAccepted (refused e) = (e ≢ sys.error_io_pending) × (e ≢ sys.wsaeconnreset)
  IsAccepted (broken e) = e ≢ sys.wsaeconnreset

  abbrev pub is_client : Accepted → Bool
  is_client (client o) = true
  is_client _ = false

  accept-reset :
      (r : Reset) (rest : List Reply)
      → run (accept_step sys) calling (reset r ++ rest) ≡ run (accept_step sys) calling rest
  unfolding run accept_step io_step
  accept-reset at_call rest = ground arith
  accept-reset after_wait rest = ground arith

  accept-accepted :
      (a : Accepted) (rest : List Reply)
      → IsAccepted a
      → run (accept_step sys) calling (accepted a ++ rest) ≡ returned (is_client a) rest
  unfolding run accept_step io_step
  accept-accepted (client (at_once n)) rest h = refl
  accept-accepted (client (later n)) rest h = ground arith
  accept-accepted (refused e) rest h = ground arith
  accept-accepted (broken e) rest h = ground arith

  -- `accept` tries again however often the other side resets the connection, at the call or during
  -- the wait, and returns the client of the operation that succeeds, and no client for any other
  -- error.
  pub accept_step_lem :
      (rs : List Reset) (a : Accepted) (rest : List Reply)
      → IsAccepted a
      → run (accept_step sys) calling (resets rs ++ (accepted a ++ rest))
        ≡ returned (is_client a) rest
  accept_step_lem [] a rest h = accept-accepted a rest h
  accept_step_lem (r ∷ rs) a rest h =
      ap (run (accept_step sys) calling) (append_assoc (reset r) (resets rs) (accepted a ++ rest))
      ∙ accept-reset r (resets rs ++ (accepted a ++ rest))
      ∙ accept_step_lem rs a rest h
