-- ===== src/Async.antt =====
-- The functions behind the coroutine types of src/ice/include/ice/async.hpp: `send(stream, buffer)`
-- without an error code argument, over the sockets of Net/Tcp. Its stream is a parameter; the forms
-- with an argument only call the stream.
mod Tests
use ice_coroutines.Base.{
  ℕ, zero, suc, ◌+◌, ◌==◌, ◌≤◌, ◌<◌, ◌^◌, ltb, Bool, true, false, not, ◌&&◌, List, [], ◌∷◌, ◌++◌,
  All, Progress, waiting, returned, run, if◌then◌else◌, ◌≡◌, ◌≢◌, refl, ap, ◌∙◌, arith,
}
use ice_coroutines.Error.{ErrorCode, Category, no_error, is_error, of_errno, errc_value, eof}
use ice_coroutines.Net.Tcp.{Reply, done, Errnos, Transferred, send_step}
use ice_coroutines.Net.Tcp.Recv.{IsErrnos}
use ice_coroutines.Net.Tcp.Send.{Before, left_by, writes, wrote, total, send_lem, send-stale}
use ice_coroutines.Net.Tcp.Send

-- `make_error_code(errc::eof)`.
abbrev pub end_of_file : ErrorCode
end_of_file = record { value = errc_value eof; category = Category.domain }

-- What `send` returns, from the size of the buffer and what the stream returns.
unfoldable pub sent_code : ℕ → Transferred → ErrorCode
sent_code size t = if not (is_error t.ec) && ltb t.count size then end_of_file else t.ec

-- `send(stream, buffer)`, which awaits the stream.
unfoldable pub send : {R S : Type 0} → ℕ → Progress R S Transferred → Progress R S ErrorCode
unfolding sent_code
send size (waiting s) = waiting s
send size (returned t rest) = returned (sent_code size t) rest

-- What is told of a first write of some bytes, by the number that an earlier call has left.
abbrev pub told : ℕ → ℕ → ℕ → ErrorCode
told errno n size =
    if errno == 0 then (if ltb n size then end_of_file else of_errno errno) else of_errno errno

sent_code-all : (size : ℕ) → sent_code size (record { count = size; ec = no_error }) ≡ no_error
unfolding sent_code
sent_code-all size = ground arith

sent_code-errno :
    (errno n size : ℕ)
    → sent_code size (record { count = n; ec = of_errno errno }) ≡ told errno n size
unfolding sent_code
sent_code-errno zero n size = ground arith
sent_code-errno (suc e) n size = ground arith

-- Over a TCP socket for Linux: on a thread whose `errno` is that of an interruption or of a call that
-- would block, and is that again after each wait, `send` writes everything and returns no error. On
-- any other thread it ends with its first write of some bytes. It then returns the error that some
-- earlier call left, also where all was written; and where no number was left, the end of the file,
-- or no error where all was written.
pub stream_send_lem :
    (sys : Errnos) (b : Before) (errno size : ℕ) (ns : List ℕ) (n : ℕ) (rest : List Reply)
    → IsErrnos sys
    → errno ≢ sys.eintr
    → errno ≢ sys.eagain
    → All (λ k. k ≢ 0) ns
    → n ≢ 0
    → total ns + n ≤ size
    → size < 2 ^ 64
    → (send (total ns + n) (
          run
            (send_step sys)
            (Send.start (left_by sys b) (total ns + n))
            (writes sys b ns ++ (wrote sys b n ++ rest)))
        ≡ returned no_error rest)
      × ((send size (run (send_step sys) (Send.start errno size) (done n ∷ rest)))
          ≡ returned (told errno n size) rest)
unfolding send
stream_send_lem sys b errno size ns n rest ok ni na nzs nz le small = (
  ap (send (total ns + n)) (send_lem sys ok b (total ns + n) ns n rest nzs nz refl (omega arith))
      ∙ ap (λ e. returned e rest) (sent_code-all (total ns + n)),
  ap (send size) (send-stale sys errno size n rest ni na nz (omega arith) small)
      ∙ ap (λ e. returned e rest) (sent_code-errno errno n size),
)
