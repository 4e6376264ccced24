-- ===== src/Ssh/Calls/Laws.antt =====
-- What the loops make of every sequence of replies.
use ice_coroutines.Base.{
  ℕ, ◌+◌, ◌-◌, ◌%◌, ◌^◌, ◌≤◌, ◌<◌, ℤ, pos, negsuc, eqb_ℤ, eqb_ℤ_iff, List, [], ◌∷◌, ◌++◌,
  append_assoc, All, ◌≡◌, ◌≢◌, refl, ap, ◌∙◌, arith, returned, run, if◌then◌else◌,
}
use ice_coroutines.Error.{ErrorCode, no_error}
use ice_coroutines.Ssh.Calls.{
  Reply, rc, waited, calling, ssh_error, native_error, Transferred, loop_step, recv_step, Sending,
  send_step,
}

-- `LIBSSH2_ERROR_EAGAIN` is the number -(k + 1).
module _ (k : ℕ) where
  abbrev pub eagain : ℤ
  eagain = negsuc k

  -- Waits for the socket, with the error codes of `io`.
  abbrev pub waits : List ErrorCode → List Reply
  waits [] = []
  waits (ec ∷ ecs) = rc eagain ∷ waited ec ∷ waits ecs

  abbrev pub loop_told : ℤ → ErrorCode
  loop_told n = if eqb_ℤ n (pos 0) then no_error else ssh_error n

  -- `loop` calls the function again after every wait, whatever error `io` had, until it returns
  -- something else than `EAGAIN`: for 0 there is no error, and any other number is an error of the
  -- ssh category.
  pub loop_step_lem :
      (ws : List ErrorCode) (n : ℤ) (rest : List Reply)
      → n ≢ eagain
      → run (loop_step eagain) calling (waits ws ++ rc n ∷ rest) ≡ returned (loop_told n) rest
  unfolding run loop_step
  loop_step_lem [] n rest h = ground (arith, eqb_ℤ_iff n eagain)
  loop_step_lem (w ∷ ws) n rest h = ground (arith, loop_step_lem ws n rest)

  abbrev pub recv_told : ErrorCode → ℤ → Transferred
  recv_told ec (pos n) = record { count = n; ec = ec }
  recv_told ec (negsuc n) = record { count = 0; ec = native_error (negsuc n) }

  -- `recv` asks again after every wait, whatever error `io` had, and returns the count that libssh2
  -- gives, with the `ec` that the caller passed as it was, or 0 and an error of the native category.
  pub recv_step_lem :
      (ec : ErrorCode) (ws : List ErrorCode) (n : ℤ) (rest : List Reply)
      → n ≢ eagain
      → run (recv_step eagain ec) calling (waits ws ++ rc n ∷ rest) ≡ returned (recv_told ec n) rest
  unfolding run recv_step
  recv_step_lem ec [] (pos n) rest h = refl
  recv_step_lem ec [] (negsuc n) rest h = ground arith
  recv_step_lem ec (w ∷ ws) n rest h = ground (arith, recv_step_lem ec ws n rest)

-- A round of `send` that leaves some bytes, and the last one.
pub data Round : Type 0 where
  writes : ℕ → Round
  again : ErrorCode → Round

pub data Ending : Type 0 where
  finishes : ℕ → Ending
  nothing : Ending
  refuses : ℕ → Ending

abbrev pub bytes : Round → ℕ
bytes (writes n) = n
bytes (again ec) = 0

abbrev pub total : List Round → ℕ
total [] = 0
total (r ∷ rs) = bytes r + total rs

abbrev pub IsRound : Round → Type 0
IsRound (writes n) = n ≢ 0
IsRound (again ec) = Unit

abbrev pub last : Ending → ℕ
last (finishes n) = n
last _ = 0

abbrev pub told : ErrorCode → Ending → ErrorCode
told ec (refuses e) = native_error (negsuc e)
told ec _ = ec

module _ (k : ℕ) where
  abbrev pub round : Round → List Reply
  round (writes n) = rc (pos n) ∷ []
  round (again ec) = rc (eagain k) ∷ waited ec ∷ []

  abbrev pub rounds : List Round → List Reply
  rounds [] = []
  rounds (r ∷ rs) = round r ++ rounds rs

  abbrev pub ending : Ending → List Reply
  ending (finishes n) = rc (pos n) ∷ []
  ending nothing = rc (pos 0) ∷ []
  ending (refuses e) = rc (negsuc e) ∷ []

  abbrev pub IsEnding : ℕ → Ending → Type 0
  IsEnding left (finishes n) = (n ≡ left) × (left ≢ 0)
  IsEnding left nothing = Unit
  IsEnding left (refuses e) = e ≢ k

  abbrev pub sending : ℕ → ErrorCode → ℕ → Sending
  sending size ec left = record { pc = calling; data_size = size; size = left; ec = ec }

  minus : (a b : ℕ) → b ≤ a → a < 2 ^ 64 → (a + (2 ^ 64 - b)) % 2 ^ 64 ≡ a - b
  minus a b le small = omega arith

  send-round :
      (size : ℕ) (ec : ErrorCode) (left : ℕ) (r : Round) (rest : List Reply)
      → IsRound r
      → bytes r < left
      → left < 2 ^ 64
      → run (send_step (eagain k)) (sending size ec left) (round r ++ rest)
        ≡ run (send_step (eagain k)) (sending size ec (left - bytes r)) rest
  unfolding run send_step
  send-round size ec left (writes n) rest nz lt small =
      let less = minus left n (omega arith) small in ground (arith, less)
  send-round size ec left (again w) rest nz lt small = ground arith

  send-ending :
      (size : ℕ) (ec : ErrorCode) (left : ℕ) (e : Ending) (rest : List Reply)
      → IsEnding left e
      → left ≤ size
      → size < 2 ^ 64
      → run (send_step (eagain k)) (sending size ec left) (ending e ++ rest)
        ≡ returned (record { count = size - left + last e; ec = told ec e }) rest
  unfolding run send_step
  send-ending size ec left (finishes n) rest h le small =
      let less = minus left n (omega arith) (omega arith) in
      let whole = minus size 0 (omega arith) small in ground (arith, less, whole)
  send-ending size ec left nothing rest h le small = ground (arith, minus size left le small)
  send-ending size ec left (refuses e) rest h le small = ground (arith, minus size left le small)

  send-rounds :
      (size : ℕ) (ec : ErrorCode) (left : ℕ) (rs : List Round) (e : Ending) (rest : List Reply)
      → All IsRound rs
      → IsEnding (left - total rs) e
      → total rs < left
      → left ≤ size
      → size < 2 ^ 64
      → run (send_step (eagain k)) (sending size ec left) (rounds rs ++ (ending e ++ rest))
        ≡ returned (record { count = size - left + (total rs + last e); ec = told ec e }) rest
  send-rounds size ec left [] e rest nz h lt le small =
      let same : left - 0 ≡ left = omega arith in
      send-ending size ec left e rest (rw same at h) le small
      ∙ let c : size - left + last e ≡ size - left + (0 + last e) = omega arith in rw c refl
  send-rounds size ec left (r ∷ rs) e rest nz h lt le small =
      let step : left - (bytes r + total rs) ≡ left - bytes r - total rs = omega arith in
      let c : size - (left - bytes r) + (total rs + last e)
          ≡ size - left + (bytes r + total rs + last e) =
        omega arith in
      ap (run (send_step (eagain k)) (sending size ec left))
        (append_assoc (round r) (rounds rs) (ending e ++ rest))
      ∙ send-round size ec left r (rounds rs ++ (ending e ++ rest)) nz.0 (omega arith) (omega arith)
      ∙ send-rounds size ec (left - bytes r) rs e rest nz.1 (rw step at h) (omega arith)
          (omega arith) small
      ∙ ap (λ n. returned (record { count = n; ec = told ec e }) rest) c

  -- `send` goes on over any number of calls that write some of the bytes and of waits, whatever error
  -- `io` had, and returns the count of all that was written: everything, where a call writes all that
  -- is left, and otherwise what was written until libssh2 wrote nothing or failed. Only where it
  -- failed does `ec` change, to an error of the native category.
  pub channel_send_lem :
      (size : ℕ) (ec : ErrorCode) (rs : List Round) (e : Ending) (rest : List Reply)
      → All IsRound rs
      → IsEnding (size - total rs) e
      → total rs < size
      → size < 2 ^ 64
      → run (send_step (eagain k)) (sending size ec size) (rounds rs ++ (ending e ++ rest))
        ≡ returned (record { count = total rs + last e; ec = told ec e }) rest
  channel_send_lem size ec rs e rest nz h lt small =
      let c : size - size + (total rs + last e) ≡ total rs + last e = omega arith in
      send-rounds size ec size rs e rest nz h lt (omega arith) small
      ∙ ap (λ n. returned (record { count = n; ec = told ec e }) rest) c
