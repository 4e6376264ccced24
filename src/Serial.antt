-- ===== src/Serial.antt =====
-- src/serial/src/ice/net/serial.cpp and src/serial/include/ice/net/serial.hpp. The overlapped
-- operations are those of Net/Overlapped; `MAX_PATH` and the numbers of the system's errors are
-- parameters.
pub mod Laws
pub mod Device
mod Tests
use ice_coroutines.Base.{
  ℕ, zero, suc, ◌+◌, ◌-◌, ◌%◌, ◌^◌, ◌==◌, leb, ℤ, not, Bool, true, false, ◌&&◌, Option, none, some,
  List, [], ◌∷◌, ◌++◌, Bytes, Next, goto, ret, if◌then◌else◌,
}
use ice_coroutines.Error.{ErrorCode, no_error, of_errno, make_error_code, of_std}
use ice_coroutines.Error.System.{StdErrc}
use ice_coroutines.Net.Overlapped.{
  Reply, done, failed, resumed, Pc, calling, Transferred, recv_step as overlapped_recv, write_step,
  Writing,
}

-- The calls of `create` behind `CreateFile`, in their order.
pub data Call : Type 0 where
  create_port set_modes get_state set_state set_timeouts : Call

abbrev pub calls : List Call
calls = create_port ∷ set_modes ∷ get_state ∷ set_state ∷ set_timeouts ∷ []

-- `handle_`, and the handles that have been closed, latest first.
pub record Serial : Type 0 where
  pub handle : Option ℕ
  pub closed : List ℕ

abbrev pub drop_handle : Option ℕ → List ℕ → List ℕ
drop_handle none closed = closed
drop_handle (some h) closed = h ∷ closed

-- The calls on a new handle: the last error of the first that fails.
unfoldable pub configure : (Call → Reply) → List Call → Option ℕ
configure os [] = none
configure os (c ∷ cs) = elim (os c) [ failed e ↦ some e | _ ↦ configure os cs ]

-- What `CreateFile` returns, and the last error behind it.
pub record File : Type 0 where
  pub value : ℕ
  pub last_error : ℕ

-- `create`. The value 0 is the one that `handle_type` takes for no handle.
unfoldable pub create : (StdErrc → ℤ) → Bytes → File → (Call → Reply) → Serial → ErrorCode × Serial
unfolding configure
create std [] file os s = (make_error_code std (of_std StdErrc.invalid_argument), s)
create std (c ∷ device) file os s =
    if file.value == 0 then (of_errno file.last_error, s) else elim (configure os calls) [
      | some e ↦ (of_errno e, record s { closed = file.value ∷ s.closed })
      | none ↦
          (no_error, record { handle = some file.value; closed = drop_handle s.handle s.closed })
    ]

-- `close`.
unfoldable pub close : Serial → Serial
close s = record { handle = none; closed = drop_handle s.handle s.closed }

-- `recv`, from its call of `ReadFile` on.
unfoldable pub recv_step : ℕ → Pc → Reply → Next Pc Transferred
unfolding overlapped_recv
recv_step = overlapped_recv

-- `size` and `written`.
pub record Local : Type 0 where
  pub size : ℕ
  pub written : ℕ

abbrev pub stop : Local → ErrorCode → Transferred
stop l ec = record { count = l.written; ec = ec }

-- `size -= bytes; written += bytes;`, and the `while` behind it.
unfoldable pub advance : Local → ℕ → Next Local Transferred
advance l n =
    let rest : Local = record {
      size = (l.size + (2 ^ 64 - n)) % 2 ^ 64;
      written = (l.written + n) % 2 ^ 64;
    } in
    if rest.size == 0 then ret (stop rest no_error) else goto rest

-- `send`, from its call of `WriteFile` on.
unfoldable pub send_step : ℕ → Writing Local → Reply → Next (Writing Local) Transferred
unfolding advance write_step
send_step = write_step advance stop
