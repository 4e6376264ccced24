-- ===== src/Net/Socket/Laws.antt =====
-- What the operations of a socket do with errors and handles.
use ice_coroutines.Base.{
  ℕ, zero, suc, ◌+◌, none, some, List, [], ◌∷◌, ◌++◌, ◌≡◌, ◌≢◌, refl, arith, returned, run,
}
use ice_coroutines.Net.Service.Ownership.{holds, count}
use ice_coroutines.Net.Socket.{
  Result, done, failed, Socket, create, close, bind_step, close_step, status,
}

-- Interrupted calls.
abbrev pub interrupted : ℕ → ℕ → List Result
interrupted eintr zero = []
interrupted eintr (suc n) = failed eintr ∷ interrupted eintr n

-- A result that is no interruption.
abbrev pub IsFinal : ℕ → Result → Type 0
IsFinal eintr (done n) = Unit
IsFinal eintr (failed e) = e ≢ eintr

-- However often they are interrupted, `bind` and the closing of a handle call again until the system
-- gives another answer, and then return; `bind` returns the error of that answer, if it is one.
pub bind_step-IsFinal :
    (eintr n : ℕ) (r : Result) (rest : List Result)
    → IsFinal eintr r
    → (run (bind_step eintr) tt (interrupted eintr n ++ r ∷ rest) ≡ returned (status r) rest)
      × (run (close_step eintr) tt (interrupted eintr n ++ r ∷ rest) ≡ returned tt rest)
unfolding run bind_step close_step status
bind_step-IsFinal eintr zero (done k) rest h = (refl, refl)
bind_step-IsFinal eintr zero (failed e) rest h = (ground arith, ground arith)
bind_step-IsFinal eintr (suc n) r rest h =
    let i = bind_step-IsFinal eintr n r rest h in (ground (arith, i.0), ground (arith, i.1))

-- How often a handle is that of the socket or has been closed.
unfoldable pub accounted : ℕ → Socket → ℕ
accounted h s = holds h s.handle + count h s.closed

abbrev pub opened : ℕ → Result → ℕ
opened h (done k) = holds h (some k)
opened h (failed e) = 0

-- `create` keeps account of the handle that it opens, and `close` of all: each is that of the socket
-- or has been closed, once; and a closed socket has no handle.
pub create-close :
    (h : ℕ) (r : Result) (s : Socket)
    → (accounted h (create r s).1 ≡ accounted h s + opened h r)
      × (accounted h (close (create r s).1) ≡ accounted h s + opened h r)
      × ((close (create r s).1).handle ≡ none)
unfolding create close accounted
create-close h r s = (ground arith, ground arith, refl)
