-- ===== src/Parser/Assembly.antt =====
-- How the parser cuts its input into lines. The matcher below takes every complete line, writes it
-- down, and declines every partial line.
use ice_coroutines.Base.{
  ==_iff, ℕ, ◌==◌, true, false, ◌||◌, Option, List, [], ◌∷◌, ◌++◌, Bytes, if◌then◌else◌, ◌≡◌, refl,
  arith, append-nil, append_assoc, ◌∙◌, ap, Bool-cases, inl, inr, sym,
}
use ice_coroutines.Error.{no_error}
use ice_coroutines.Parser.{
  State, Matcher, Parser, is_blank, handle, handle_lines, end_line, partial_line, offer, visible,
  parse, feed,
}

-- The environment is the list of lines written down.
abbrev pub recorder : Matcher (List Bytes) Bytes
recorder = record {
  match = λ line eol. if eol then Option.some line else Option.none;
  handler = λ line ec seen. record { state = State.none; ec = ec; env = seen ++ line ∷ [] };
}

abbrev pub Recording : Type 0
Recording = Parser (List Bytes) Bytes

abbrev pub fresh : Recording
fresh = record { cr = false; skip = false; line = []; lines = []; matchers = recorder ∷ [] }

-- A line, unless it is blank.
unfoldable pub keep : Bytes → List Bytes
unfolding is_blank
keep l = if is_blank l then [] else l ∷ []

-- The reference: both '\n' and '\r' end a line, and a backspace is dropped.
pub record Cut : Type 0 where
  pub finished : List Bytes
  pub current : Bytes

unfoldable pub cut_byte : Cut → ℕ → Cut
unfolding keep
cut_byte t c =
    if c == b'\n' || c == b'\r'
    then record { finished = t.finished ++ keep t.current; current = [] }
    else if c == 8
    then t
    else record t { current = t.current ++ c ∷ [] }

unfoldable pub cut : Cut → Bytes → Cut
unfolding cut_byte
cut t [] = t
cut t (c ∷ cs) = cut (cut_byte t c) cs

-- The lines that the parser has written down or still keeps, and the line that it is reading.
abbrev pub view : Recording → List Bytes → Cut
view p seen = record {
  finished = (seen ++ p.lines) ++ (if p.cr then keep p.line else []);
  current = if p.cr then [] else p.line;
}

-- The state that the bytes keep.
abbrev pub IsRecording : Recording → Type 0
IsRecording p = (p.skip ≡ false) × (p.matchers ≡ recorder ∷ [])

handle_recorded :
    (l : Bytes) (seen : List Bytes)
    → handle (recorder ∷ []) l true no_error seen
      ≡ record { state = State.none; ec = no_error; env = seen ++ l ∷ [] }
unfolding handle
handle_recorded l seen = refl

handle_lines_recorded :
    (ls seen : List Bytes)
    → handle_lines (recorder ∷ []) ls no_error seen
      ≡ (Option.none, record { state = State.none; ec = no_error; env = seen ++ ls })
unfolding handle_lines handle
handle_lines_recorded [] seen = rw append-nil
handle_lines_recorded (l ∷ ls) seen = handle_lines_recorded ls (seen ++ l ∷ []) ∙ rw append_assoc

partial_line_recorded :
    (p : Recording) (seen : List Bytes)
    → p.matchers ≡ recorder ∷ []
    → partial_line p no_error seen
      ≡ record { state = State.none; ec = no_error; parser = p; env = seen }
unfolding partial_line
partial_line_recorded p seen m = ground (arith, declined)
  where
    declined :
        handle p.matchers p.line false no_error seen
        ≡ record { state = State.none; ec = no_error; env = seen }
    declined = rw m refl

offer_recorded :
    (p : Recording) (seen : List Bytes)
    → p.matchers ≡ recorder ∷ []
    → offer p no_error seen ≡ record {
      state = State.none;
      ec = no_error;
      parser = record p { lines = [] };
      env = seen ++ p.lines;
    }
unfolding offer
offer_recorded p seen m = ground (
  arith,
  handle_lines_recorded p.lines seen,
  partial_line_recorded (record p { lines = [] }) (seen ++ p.lines),
)

end_line-lines : (p : Recording) → (end_line p).lines ≡ p.lines ++ keep p.line
unfolding end_line keep
end_line-lines p = elim (Bool-cases (is_blank p.line)) [
  | inl blank ↦ rw blank (sym (append-nil p.lines))
  | inr ink ↦ rw ink
]

-- A parser after the line that a pending '\r' has ended, as the following byte finds it.
abbrev settled : Recording → Recording
settled p = if p.cr then end_line p else p

settled-view :
    (p : Recording) (seen : List Bytes)
    → view p seen ≡ record { finished = seen ++ (settled p).lines; current = (settled p).line }
unfolding keep end_line
settled-view p seen = elim (Bool-cases p.cr) [
  | inl e ↦ rw e (rw (end_line-lines p, append_assoc) (unfold end_line in refl))
  | inr e ↦ rw e (rw append-nil)
]

settled-fields :
    (p : Recording) → IsRecording p → IsRecording (settled p) × ((settled p).cr ≡ false)
unfolding end_line
settled-fields p h = ground arith

newline-view :
    (p : Recording) (seen : List Bytes) → view (end_line p) seen ≡ cut_byte (view p seen) b'\n'
unfolding end_line cut_byte
newline-view p seen = ground (
  arith,
  append-nil (seen ++ p.lines),
  append-nil (seen ++ (p.lines ++ p.line ∷ [])),
  append_assoc seen p.lines (p.line ∷ []),
  append-nil ((seen ++ p.lines) ++ p.line ∷ []),
)

-- A byte that is no line feed, once a pending '\r' has ended its line.
visible_recorded :
    (q : Recording) (c : ℕ) (seen : List Bytes)
    → IsRecording q
    → q.cr ≡ false
    → (c == b'\n') ≡ false
    → let r = visible q c seen in
      (view r.parser r.env ≡ cut_byte (record { finished = seen ++ q.lines; current = q.line }) c)
      × IsRecording r.parser
      × (r.state ≡ State.none)
unfolding visible cut_byte
visible_recorded q c seen h e n = ground (
  arith,
  offer_recorded (record q { line = q.line ++ c ∷ [] }) seen,
  append-nil (seen ++ q.lines),
)

parse-newline :
    (p : Recording) (seen : List Bytes)
    → p.skip ≡ false
    → parse p b'\n' seen
      ≡ record { state = State.none; ec = no_error; parser = end_line p; env = seen }
unfolding parse
parse-newline p seen h = ground arith

parse-visible :
    (p : Recording) (c : ℕ) (seen : List Bytes)
    → p.skip ≡ false
    → (c == b'\n') ≡ false
    → parse p c seen ≡ visible (settled p) c seen
unfolding parse
parse-visible p c seen h n = ground arith

pub parse_recorded :
    (p : Recording) (c : ℕ) (seen : List Bytes)
    → IsRecording p
    → let r = parse p c seen in
      (view r.parser r.env ≡ cut_byte (view p seen) c)
      × IsRecording r.parser
      × (r.state ≡ State.none)
parse_recorded p c seen h = elim (Bool-cases (c == b'\n')) [
  | inl e ↦
      rw ((==_iff c b'\n').0 e, parse-newline p seen h.0)
        (newline-view p seen, unfold end_line in h, refl)
  | inr e ↦
      let (h', cr) = settled-fields p h in
      rw (parse-visible p c seen h.0 e, settled-view p seen)
        (visible_recorded (settled p) c seen h' cr e)
]

feed_recorded :
    (p : Recording) (cs : Bytes) (seen : List Bytes)
    → IsRecording p
    → view (feed p cs seen).0 (feed p cs seen).1 ≡ cut (view p seen) cs
unfolding feed cut
feed_recorded p [] seen h = refl
feed_recorded p (c ∷ cs) seen h =
    let r = parse p c seen in
    let (step, kept, _) = parse_recorded p c seen h in
    feed_recorded r.parser cs r.env kept ∙ ap (λ (t : Cut). cut t cs) step

-- Whatever bytes come in, the lines offered as complete to a matcher that takes every line, those
-- still kept for it and the line being read are the cut of the input: its non-blank lines in order,
-- each once, without backspaces, where '\n', '\r' and "\r\n" end a line.
pub feed-cut :
    (cs : Bytes)
    → view (feed fresh cs []).0 (feed fresh cs []).1
      ≡ cut (record { finished = []; current = [] }) cs
feed-cut cs = feed_recorded fresh cs [] (refl, refl)
