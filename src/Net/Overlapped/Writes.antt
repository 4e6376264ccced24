-- ===== src/Net/Overlapped/Writes.antt =====
-- The loop of `send` over every sequence of operations.
use ice_coroutines.Base.{
  ℕ, ◌+◌, ◌-◌, ◌≤◌, ◌<◌, List, [], ◌∷◌, ◌++◌, append_assoc, All, ◌≡◌, ◌≢◌, ap, ◌∙◌, arith, Next,
  goto, ret, returned, run,
}
use ice_coroutines.Error.{ErrorCode, no_error, of_errno}
use ice_coroutines.Net.Overlapped.{
  Reply, done, failed, resumed, calling, io_step, Transferred, Writing, write_step,
}

-- An operation of some bytes, at once or after a wait.
pub data Operation : Type 0 where
  at_once later : ℕ → Operation

abbrev pub bytes : Operation → ℕ
bytes (at_once n) = n
bytes (later n) = n

abbrev pub total : List Operation → ℕ
total [] = 0
total (o ∷ os) = bytes o + total os

-- How the loop is left: an operation that writes all that is left, one that writes nothing, an error
-- of the call, or one of a pending operation.
pub data Ending : Type 0 where
  finishes nothing : Operation → Ending
  refuses breaks : ℕ → Ending

-- The error that the caller is told, and the bytes of the last operation.
abbrev pub told : Ending → ErrorCode
told (finishes o) = no_error
told (nothing o) = no_error
told (refuses e) = of_errno e
told (breaks e) = of_errno e

abbrev pub last : Ending → ℕ
last (finishes o) = bytes o
last _ = 0

-- What an ending is, with some bytes left.
abbrev pub IsEnding : ℕ → ℕ → Ending → Type 0
IsEnding pending left (finishes o) = (bytes o ≡ left) × (left ≢ 0)
IsEnding pending left (nothing o) = bytes o ≡ 0
IsEnding pending left (refuses e) = e ≢ pending
IsEnding pending left (breaks e) = Unit

pub last-le : (pending left : ℕ) (e : Ending) → IsEnding pending left e → last e ≤ left
last-le pending left (finishes o) h = omega arith
last-le pending left (nothing o) h = omega arith
last-le pending left (refuses e) h = omega arith
last-le pending left (breaks e) h = omega arith

module _ (pending : ℕ) where
  abbrev pub operation : Operation → List Reply
  operation (at_once n) = done n ∷ []
  operation (later n) = failed pending ∷ resumed ∷ done n ∷ []

  abbrev pub operations : List Operation → List Reply
  operations [] = []
  operations (o ∷ os) = operation o ++ operations os

  abbrev pub ending : Ending → List Reply
  ending (finishes o) = operation o
  ending (nothing o) = operation o
  ending (refuses e) = failed e ∷ []
  ending (breaks e) = failed pending ∷ resumed ∷ failed e ∷ []

  -- A loop whose local state is what is left of the bytes, up to a bound.
  module _ {S : Type 0} (after : S → ℕ → Next S Transferred) (stop : S → ErrorCode → Transferred)
      (at : ℕ → S) (bound : ℕ)
      (partly : (left n : ℕ)
        → n ≢ 0
        → n < left
        → left < bound
        → after (at left) n ≡ goto (at (left - n)))
      (wholly : (n : ℕ) → n ≢ 0 → n < bound → after (at n) n ≡ ret (stop (at 0) no_error)) where
    abbrev start : ℕ → Writing S
    start left = record { pc = calling; local = at left }

    write-operation :
        (o : Operation) (left : ℕ) (rest : List Reply)
        → bytes o ≢ 0
        → bytes o < left
        → left < bound
        → run (write_step after stop pending) (start left) (operation o ++ rest)
          ≡ run (write_step after stop pending) (start (left - bytes o)) rest
    unfolding run write_step io_step
    write-operation (at_once n) left rest nz lt small = ground (arith, partly left n)
    write-operation (later n) left rest nz lt small = ground (arith, partly left n)

    write-finish :
        (o : Operation) (rest : List Reply)
        → bytes o ≢ 0
        → bytes o < bound
        → run (write_step after stop pending) (start (bytes o)) (operation o ++ rest)
          ≡ returned (stop (at 0) no_error) rest
    unfolding run write_step io_step
    write-finish (at_once n) rest nz small = ground (arith, wholly n)
    write-finish (later n) rest nz small = ground (arith, wholly n)

    write-ending :
        (e : Ending) (left : ℕ) (rest : List Reply)
        → IsEnding pending left e
        → left < bound
        → run (write_step after stop pending) (start left) (ending e ++ rest)
          ≡ returned (stop (at (left - last e)) (told e)) rest
    unfolding run write_step io_step
    write-ending (finishes o) left rest h small =
        let all : left ≡ bytes o = omega arith in
        let none : bytes o - bytes o ≡ 0 = omega arith in
        rw (all, none) (write-finish o rest (omega arith) (omega arith))
    write-ending (nothing (at_once n)) left rest h small = ground arith
    write-ending (nothing (later n)) left rest h small = ground arith
    write-ending (refuses e) left rest h small = ground arith
    write-ending (breaks e) left rest h small = ground arith

    pub write-operations :
        (os : List Operation) (e : Ending) (left : ℕ) (rest : List Reply)
        → All (λ o. bytes o ≢ 0) os
        → IsEnding pending (left - total os) e
        → total os < left
        → left < bound
        → run (write_step after stop pending) (start left) (operations os ++ (ending e ++ rest))
          ≡ returned (stop (at (left - total os - last e)) (told e)) rest
    write-operations [] e left rest nz h lt small =
        let none : left - 0 ≡ left = omega arith in
        rw none (write-ending e left rest (rw none at h) small)
    write-operations (o ∷ os) e left rest nz h lt small =
        let step : left - (bytes o + total os) ≡ left - bytes o - total os = omega arith in
        ap (run (write_step after stop pending) (start left))
          (append_assoc (operation o) (operations os) (ending e ++ rest))
        ∙ write-operation o left (operations os ++ (ending e ++ rest)) nz.0 (omega arith) small
        ∙ rw step (
            write-operations os e (left - bytes o) rest nz.1 (rw step at h) (omega arith)
              (omega arith))
