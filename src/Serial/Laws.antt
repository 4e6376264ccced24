-- ===== src/Serial/Laws.antt =====
-- What `create`, `recv` and `send` of a serial port do.
use ice_coroutines.Base.{
  ℕ, suc, ◌+◌, ◌-◌, ◌%◌, ◌^◌, ◌==◌, ◌<◌, ℤ, List, [], ◌∷◌, ◌++◌, Bytes, All, ◌⊎◌, inr,
  if◌then◌else◌, ◌≡◌, ◌≢◌, refl, ap, ◌∙◌, arith, goto, ret, returned, run,
}
use ice_coroutines.Error.{no_error, of_errno}
use ice_coroutines.Error.System.{StdErrc}
use ice_coroutines.Net.Overlapped.{Reply, failed, calling, Writing}
use ice_coroutines.Net.Overlapped.Writes.{
  Operation, bytes, total, Ending, told, last, IsEnding, operations, ending, write-operations,
  last-le,
}
use ice_coroutines.Net.Service.Ownership.{hit, holds, count}
use ice_coroutines.Serial.{
  Call, create_port, Serial, File, configure, create, Local, stop, advance, send_step,
}

abbrev at : ℕ → ℕ → Local
at size left = record { size = left; written = size - left }

abbrev pub sending : ℕ → Writing Local
sending size = record { pc = calling; local = record { size = size; written = 0 } }

advance_partly :
    (size left n : ℕ)
    → size < 2 ^ 64
    → n ≢ 0
    → n < left
    → left < suc size
    → advance (at size left) n ≡ goto (at size (left - n))
unfolding advance
advance_partly size left n small nz lt le =
    let rest : (left + (2 ^ 64 - n)) % 2 ^ 64 ≡ left - n = omega arith in
    let more : (size - left + n) % 2 ^ 64 ≡ size - (left - n) = omega arith in
    ground (arith, rest, more)

advance_wholly :
    (size n : ℕ)
    → size < 2 ^ 64
    → n ≢ 0
    → n < suc size
    → advance (at size n) n ≡ ret (stop (at size 0) no_error)
unfolding advance
advance_wholly size n small nz le =
    let rest : (n + (2 ^ 64 - n)) % 2 ^ 64 ≡ 0 = omega arith in
    let more : (size - n + n) % 2 ^ 64 ≡ size - 0 = omega arith in ground (arith, rest, more)

-- `send` goes on over any number of operations that write some of the bytes, at once or after a
-- wait, and returns the count of all that was written: everything, where an operation writes all
-- that is left, and otherwise, with the error of the operation that failed or with none where one
-- writes nothing, what the operations before it have written.
pub port_send_lem :
    (pending size : ℕ) (os : List Operation) (e : Ending) (rest : List Reply)
    → All (λ o. bytes o ≢ 0) os
    → IsEnding pending (size - total os) e
    → total os < size
    → size < 2 ^ 64
    → run (send_step pending) (sending size) (operations pending os ++ (ending pending e ++ rest))
      ≡ returned (record { count = total os + last e; ec = told e }) rest
unfolding send_step
port_send_lem pending size os e rest nz h lt small =
    let le = last-le pending (size - total os) e h in
    let left : size - (size - total os - last e) ≡ total os + last e = omega arith in
    let none : size - size ≡ 0 = omega arith in
    rw none at (
      write-operations pending advance stop (at size) (suc size)
        (λ l n nz lt le. advance_partly size l n small nz lt le)
        (λ n nz le. advance_wholly size n small nz le) os e size rest nz h lt (omega arith))
    ∙ ap (λ c. returned (record { count = c; ec = told e }) rest) left

-- How often a handle is that of the port or has been closed, and the handles that `create` opens.
unfoldable pub accounted : ℕ → Serial → ℕ
accounted h s = holds h s.handle + count h s.closed

unfoldable pub opened : ℕ → Bytes → File → ℕ
opened h [] file = 0
opened h (c ∷ device) file = if file.value == 0 then 0 else hit h file.value

-- Whichever of its calls fails, `create` loses no handle and closes none twice: the one that it opens
-- and the one that the port had are afterwards that of the port or closed, once. The port has another
-- handle than before only where there is no error.
pub port-accounted :
    (std : StdErrc → ℤ) (device : Bytes) (file : File) (os : Call → Reply) (s : Serial) (h : ℕ)
    → let (ec, s') = create std device file os s in
      (accounted h s' ≡ accounted h s + opened h device file)
      × ((ec ≡ no_error) ⊎ (s'.handle ≡ s.handle))
unfolding create accounted opened
port-accounted std [] file os s h = (omega arith, inr refl)
port-accounted std (c ∷ device) file os s h = (ground arith, ground arith)

-- `CreateFile` returns 2 ^ 64 - 1 where it fails, which is not the value that `create` tests for. Where
-- the completion port refuses that value, `create` returns the error of this refusal, and not that of
-- `CreateFile`, and closes a handle with that value.
create-invalid :
    (std : StdErrc → ℤ) (c : ℕ) (device : Bytes) (os : Call → Reply) (s : Serial)
    (last_error refusal : ℕ)
    → os create_port ≡ failed refusal
    → create std (c ∷ device) (record { value = 2 ^ 64 - 1; last_error = last_error }) os s
      ≡ (of_errno refusal, record s { closed = (2 ^ 64 - 1) ∷ s.closed })
unfolding create configure
create-invalid std c device os s last_error refusal r = ground arith
