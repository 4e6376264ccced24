-- ===== src/Ssh/Relay/Laws.antt =====
-- What the callbacks and `io` pass on.
use ice_coroutines.Base.{
  ℕ, zero, suc, ℤ, pos, false, List, [], ◌∷◌, ◌++◌, Bytes, length, take, returned, run, ◌≡◌, ◌≢◌,
  refl, ap, arith,
}
use ice_coroutines.Error.System.{StdErrc}
use ice_coroutines.Ssh.Relay.{
  Operation, recv, send, Reply, done, failed, Called, negated, callback_step, on_recv_step,
  on_send_step, Buffer, copied, count, eagain, storage_size, smaller, on_recv, on_send, Moved,
  finish_io, io,
}

abbrev pub interrupted : ℕ → ℕ → List Reply
interrupted eintr zero = []
interrupted eintr (suc n) = failed eintr ∷ interrupted eintr n

-- What libssh2 is told by the last reply.
abbrev pub told : Operation → Operation → Reply → Called
told kind before (done n) = record { result = pos n; operation = before }
told kind before (failed e) = record { result = negated e; operation = kind }

abbrev pub IsFinal : ℕ → Reply → Type 0
IsFinal eintr (done n) = Unit
IsFinal eintr (failed e) = e ≢ eintr

callback-final :
    (eintr n : ℕ) (kind before : Operation) (r : Reply) (rest : List Reply)
    → IsFinal eintr r
    → run (callback_step eintr kind) before (interrupted eintr n ++ r ∷ rest)
      ≡ returned (told kind before r) rest
unfolding run callback_step
callback-final eintr zero kind before (done k) rest h = refl
callback-final eintr zero kind before (failed e) rest h = ground arith
callback-final eintr (suc n) kind before r rest h =
    ground (arith, callback-final eintr n kind before r rest h)

-- For POSIX systems each callback repeats its call however often that is interrupted, and gives
-- libssh2 the count, or the negated `errno`; only behind an error is the session's operation that of
-- the callback, and otherwise it is what it was.
pub callbacks-IsFinal :
    (eintr n : ℕ) (before : Operation) (r : Reply) (rest : List Reply)
    → IsFinal eintr r
    → (run (on_recv_step eintr) before (interrupted eintr n ++ r ∷ rest)
        ≡ returned (told recv before r) rest)
      × (run (on_send_step eintr) before (interrupted eintr n ++ r ∷ rest)
          ≡ returned (told send before r) rest)
unfolding on_recv_step on_send_step
callbacks-IsFinal eintr n before r rest h =
    (callback-final eintr n recv before r rest h, callback-final eintr n send before r rest h)

take-length : (bytes : Bytes) → take (length bytes) bytes ≡ bytes
take-length [] = refl
take-length (b ∷ bytes) = ap (λ l. b ∷ l) (take-length bytes)

-- For Windows, what the socket receives while `io` runs is what libssh2 gets from its next call of
-- the callback, which it made before in vain: all of it, and the call after that asks for more.
pub on_recv-io :
    (std : StdErrc → ℤ) (size size' size'' before : ℕ) (kind : Operation) (storage : Bytes)
    (m : Moved)
    → let b : Buffer = record {
      operation = kind;
      storage = storage;
      size = before;
      ready = false;
    } in
      let (first, b1) = on_recv size b in
      let (ec, b2) = io std m b1 in
      let (second, b3) = on_recv size' b2 in
      (first ≡ eagain) × (second ≡ copied m.received) × ((on_recv size'' b3).0 ≡ eagain)
unfolding on_recv io finish_io
on_recv-io std size size' size'' before kind storage m =
    (refl, ap copied (take-length m.received), refl)

-- For Windows, libssh2 is told the count of the bytes that the socket sent while `io` ran, and these
-- are taken from the bytes of its first call of the callback: at most 4096, from the front.
pub on_send-io :
    (std : StdErrc → ℤ) (bytes bytes' : Bytes) (before : ℕ) (kind : Operation) (storage : Bytes)
    (m : Moved)
    → let b : Buffer = record {
      operation = kind;
      storage = storage;
      size = before;
      ready = false;
    } in
      let (first, b1) = on_send bytes b in
      let (ec, b2) = io std m b1 in
      (first ≡ eagain)
      × (b1.storage ≡ take (smaller (length bytes) storage_size) bytes)
      × ((on_send bytes' b2).0 ≡ count m.sent)
unfolding on_send io finish_io
on_send-io std bytes bytes' before kind storage m = (refl, refl, refl)
