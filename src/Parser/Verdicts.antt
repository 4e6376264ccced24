-- ===== src/Parser/Verdicts.antt =====
-- What the states returned by handlers do to the parser.
use ice_coroutines.Base.{
  ℕ, ◌==◌, Bool, true, false, not, ◌&&◌, Option, List, [], ◌∷◌, ◌++◌, Bytes, if◌then◌else◌, ◌≡◌,
  refl, arith, inl, inr, ◌⊎◌,
}
use ice_coroutines.Error.{ErrorCode, no_error, is_error}
use ice_coroutines.Parser.{
  State, Matcher, Parser, handle, handle_lines, end_line, partial_line, offer, visible, parse, feed,
}

-- No line feed in the text.
abbrev pub no_newline : Bytes → Bool
no_newline [] = true
no_newline (c ∷ cs) = not (c == b'\n') && no_newline cs

-- The states after which the rest of the line is dropped.
abbrev pub Drops : State → Type 0
Drops st = (st ≡ State.more) ⊎ (st ≡ State.skip)

module _ {W M : Type 0} where
  handle_lines-calm :
      (ms : List (Matcher W M)) (ls : List Bytes) (ec : ErrorCode) (w : W)
      → is_error ec ≡ false
      → (handle_lines ms ls ec w).0 ≡ Option.none
      → is_error (handle_lines ms ls ec w).1.ec ≡ false
  unfolding handle_lines
  handle_lines-calm ms [] ec w calm h = calm
  handle_lines-calm ms (l ∷ ls) ec w calm h =
      let r = handle ms l true ec w in ground (arith, handle_lines-calm ms ls r.ec r.env)

  partial_line-is_error :
      (p : Parser W M) (ec : ErrorCode) (w : W)
      → is_error ec ≡ false
      → is_error (partial_line p ec w).ec ≡ true
      → (partial_line p ec w).state ≡ State.done
  unfolding partial_line
  partial_line-is_error p ec w calm h = ground arith

  offer-is_error :
      (p : Parser W M) (w : W)
      → is_error (offer p no_error w).ec ≡ true
      → (offer p no_error w).state ≡ State.done
  unfolding offer
  offer-is_error p w h =
      let r = handle_lines p.matchers p.lines no_error w in
      ground (
        arith,
        handle_lines-calm p.matchers p.lines no_error w,
        partial_line-is_error (record p { lines = [] }) r.1.ec r.1.env,
      )

  visible-is_error :
      (p : Parser W M) (c : ℕ) (w : W)
      → is_error (visible p c w).ec ≡ true
      → (visible p c w).state ≡ State.done
  unfolding visible
  visible-is_error p c w h =
      let q = if p.cr then end_line p else p in
      ground (arith, offer-is_error (record q { line = q.line ++ c ∷ [] }) w)

  -- An error that a handler reports is never passed over: where `parse` leaves an error code, it
  -- returns `done`.
  pub parse-is_error :
      (p : Parser W M) (c : ℕ) (w : W)
      → is_error (parse p c w).ec ≡ true
      → (parse p c w).state ≡ State.done
  unfolding parse
  parse-is_error p c w h = ground (arith, visible-is_error p c w)

  abbrev IsDropping : Parser W M → Type 0
  IsDropping p = (p.skip ≡ true) × (p.line ≡ []) × (p.lines ≡ [])

  partial_line-Drops :
      (p : Parser W M) (ec : ErrorCode) (w : W)
      → Drops (partial_line p ec w).state
      → ((partial_line p ec w).parser.skip ≡ true)
        × ((partial_line p ec w).parser.line ≡ [])
        × ((partial_line p ec w).parser.lines ≡ p.lines)
  unfolding partial_line
  partial_line-Drops p ec w (inl h) = ground arith
  partial_line-Drops p ec w (inr h) = ground arith

  offer-Drops :
      (p : Parser W M) (w : W)
      → Drops (offer p no_error w).state
      → IsDropping (offer p no_error w).parser
  unfolding offer
  offer-Drops p w h =
      let r = handle_lines p.matchers p.lines no_error w in
      ground (arith, partial_line-Drops (record p { lines = [] }) r.1.ec r.1.env)

  parse-Drops :
      (p : Parser W M) (c : ℕ) (w : W) → Drops (parse p c w).state → IsDropping (parse p c w).parser
  unfolding parse
  parse-Drops p c w h =
      let q = if p.cr then end_line p else p in
      ground (arith, offer-Drops (record q { line = q.line ++ c ∷ [] }) w)

  parse-skipping :
      (p : Parser W M) (c : ℕ) (w : W)
      → p.skip ≡ true
      → parse p c w ≡ record {
        state = State.none;
        ec = no_error;
        parser = if c == b'\n' then record p { skip = false } else p;
        env = w;
      }
  unfolding parse
  parse-skipping p c w h = ground arith

  feed_skipping :
      (p : Parser W M) (cs : Bytes) (w : W)
      → p.skip ≡ true
      → no_newline cs ≡ true
      → feed p (cs ++ b'\n' ∷ []) w ≡ (record p { skip = false }, w)
  unfolding feed
  feed_skipping p [] w s h = ground (arith, parse-skipping p b'\n' w)
  feed_skipping p (c ∷ cs) w s h = ground (arith, parse-skipping p c w, feed_skipping p cs w)

  -- Where a partial line gets `more` or `skip`, what follows up to the next '\n' reaches no handler:
  -- the environment stays, and the parser then stands at the start of a line with nothing kept.
  feed-Drops :
      (p : Parser W M) (c : ℕ) (w : W) (rest : Bytes)
      → Drops (parse p c w).state
      → no_newline rest ≡ true
      → let r = parse p c w in
        let (q, w') = feed r.parser (rest ++ b'\n' ∷ []) r.env in
        (w' ≡ r.env) × (q.skip ≡ false) × (q.line ≡ []) × (q.lines ≡ [])
  feed-Drops p c w rest d h =
      let r = parse p c w in
      let (skips, empty, none_kept) = parse-Drops p c w d in
      rw (feed_skipping r.parser rest r.env skips h) (refl, refl, empty, none_kept)
