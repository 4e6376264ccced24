-- ===== src/Parser/Run.antt =====
-- `parser::run` as a machine that waits at `stream.recv(&c, 1, ec)`. The stream is a parameter: each
-- of its replies is the count that `recv` returns, the byte that it stored and the error code.
use ice_coroutines.Base.{
  ℕ, zero, suc, ◌==◌, true, List, [], ◌∷◌, ◌++◌, map, Bytes, if◌then◌else◌, ◌≡◌, refl, arith, ◌∙◌,
  Next, goto, ret, waiting, returned, run, run-goto, run-ret,
}
use ice_coroutines.Error.{ErrorCode, no_error, is_error}
use ice_coroutines.Parser.{Parser, is_done, parse, feed}
use ice_coroutines.Parser.Verdicts.{parse-is_error}
use ice_coroutines.Parser.Assembly.{
  Recording, IsRecording, fresh, view, cut, feed-cut, parse_recorded,
}

pub record Received : Type 0 where
  pub count : ℕ
  pub byte : ℕ
  pub error : ErrorCode

module _ (W M : Type 0) where
  -- What the loop keeps at `recv`.
  pub record Loop : Type 0 where
    pub parser : Parser W M
    pub env : W

  -- What `run` leaves: the error code that it returns, the parser and the environment.
  pub record Ended : Type 0 where
    pub ec : ErrorCode
    pub last : Loop

-- The end of the stream, as the sockets of this library report it: no byte and no error.
abbrev pub end_of_stream : Received
end_of_stream = record { count = 0; byte = 0; error = no_error }

abbrev pub repeated : ℕ → List Received
repeated zero = []
repeated (suc n) = end_of_stream ∷ repeated n

module _ {W M : Type 0} where
  -- `while (!ec)`, at the end of a round.
  again : ErrorCode → Loop W M → Next (Loop W M) (Ended W M)
  again ec s = if is_error ec then ret (record { ec = ec; last = s }) else goto s

  -- One round of the loop, from the reply to its `recv`.
  unfoldable pub run_step : Loop W M → Received → Next (Loop W M) (Ended W M)
  unfolding again
  run_step s r =
      let q = parse s.parser r.byte s.env in
      let s' : Loop W M = record { parser = q.parser; env = q.env } in
      if r.count == 0
      then again r.error s
      else if is_done q.state
      then ret (record { ec = q.ec; last = s' })
      else again q.ec s'

  -- At the end of the stream `run` asks for the next byte again, without end: however often `recv`
  -- reports it, `run` has not returned and nothing has changed.
  pub run-end_of_stream : (s : Loop W M) (n : ℕ) → run run_step s (repeated n) ≡ waiting s
  unfolding run run_step
  run-end_of_stream s zero = refl
  run-end_of_stream s (suc n) = run-end_of_stream s n

-- A byte as `recv` delivers it.
abbrev pub delivered : ℕ → Received
delivered c = record { count = 1; byte = c; error = no_error }

abbrev loop : Recording → List Bytes → Loop (List Bytes) Bytes
loop p seen = record { parser = p; env = seen }

run_step-delivered :
    (p : Recording) (c : ℕ) (seen : List Bytes)
    → IsRecording p
    → run_step (loop p seen) (delivered c)
      ≡ goto (loop (parse p c seen).parser (parse p c seen).env)
unfolding run_step
run_step-delivered p c seen h =
    ground (arith, (parse_recorded p c seen h).2, parse-is_error p c seen)

run-delivered :
    (p : Recording) (cs : Bytes) (seen : List Bytes) (rest : List Received)
    → IsRecording p
    → run run_step (loop p seen) (map delivered cs ++ rest)
      ≡ run run_step (loop (feed p cs seen).0 (feed p cs seen).1) rest
unfolding feed
run-delivered p [] seen rest h = refl
run-delivered p (c ∷ cs) seen rest h =
    let r = parse p c seen in
    run-goto run_step (map delivered cs ++ rest) (run_step-delivered p c seen h)
    ∙ run-delivered r.parser cs r.env rest (parse_recorded p c seen h).1

-- For the parser whose one matcher takes every complete line, and whose handler only writes it down, and a stream
-- that delivers bytes and then fails: `run` returns the error of the failed `recv`, and by then the lines
-- written down, kept and being read are the cut of the bytes delivered.
pub run-cut :
    (cs : Bytes) (e : ErrorCode) (rest : List Received)
    → is_error e ≡ true
    → (last : Loop (List Bytes) Bytes) × (run run_step
          (loop fresh [])
          (map delivered cs ++ record { count = 0; byte = 0; error = e } ∷ rest)
        ≡ returned (record { ec = e; last = last }) rest)
      × (view last.parser last.env ≡ cut (record { finished = []; current = [] }) cs)
unfolding run_step
run-cut cs e rest h =
    let (p, seen) = feed fresh cs [] in
    (
      loop p seen,
      run-delivered fresh cs [] _ (refl, refl) ∙ run-ret run_step rest (rw h refl),
      feed-cut cs,
    )
