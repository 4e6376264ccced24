-- ===== src/Parser.antt =====
-- src/ice/include/ice/parser.hpp. A regular expression is a parameter: what it matches, of a line and
-- the flag for its end, and the match that the handler gets. Handlers are code of the user that
-- runs in an environment `W`, and may set the error code.
pub mod Assembly
pub mod Verdicts
pub mod Run
mod Tests
use ice_coroutines.Base.{
  ℕ, ◌==◌, Bool, true, false, not, ◌&&◌, ◌||◌, Option, List, [], ◌∷◌, ◌++◌, Bytes, if◌then◌else◌,
}
use ice_coroutines.Error.{ErrorCode, no_error, is_error}

pub data State : Type 0 where
  none more skip next done : State

-- What a handler leaves: its state, the error code and the environment.
pub record Reply (W : Type 0) : Type 0 where
  pub state : State
  pub ec : ErrorCode
  pub env : W

pub record Matcher (W M : Type 0) : Type 0 where
  pub match : Bytes → Bool → Option M
  pub handler : M → ErrorCode → W → Reply W

pub record Parser (W M : Type 0) : Type 0 where
  pub cr : Bool
  pub skip : Bool
  pub line : Bytes
  pub lines : List Bytes
  pub matchers : List (Matcher W M)

-- What `parse` leaves: the state that it returns, the error code, the parser, the environment.
pub record Parsed (W M : Type 0) : Type 0 where
  pub state : State
  pub ec : ErrorCode
  pub parser : Parser W M
  pub env : W

-- `parser::add`.
unfoldable pub add : {W M : Type 0} → Parser W M → Matcher W M → Parser W M
add p m = record p { matchers = p.matchers ++ m ∷ [] }

-- The bytes of " \t\v\b\f\a".
abbrev pub is_space : ℕ → Bool
is_space c = c == b' ' || c == 9 || c == 11 || c == 8 || c == 12 || c == 7

-- `line.find_first_not_of(" \t\v\b\f\a") == npos`.
unfoldable pub is_blank : Bytes → Bool
is_blank [] = true
is_blank (c ∷ cs) = is_space c && is_blank cs

abbrev pub is_done : State → Bool
is_done State.done = true
is_done _ = false

abbrev pub is_more : State → Bool
is_more State.more = true
is_more _ = false

module _ {W M : Type 0} where
  -- The loop of `handle`, from the state of the last handler called.
  unfoldable pub handle_from : List (Matcher W M) → Bytes → Bool → Reply W → Reply W
  handle_from [] line eol r = r
  handle_from (m ∷ ms) line eol r = elim (m.match line eol) [
    | Option.none ↦ handle_from ms line eol r
    | Option.some sm ↦
        let r' = m.handler sm r.ec r.env in
        elim (is_more r'.state) [ true ↦ handle_from ms line eol r' | false ↦ r' ]
  ]

  -- `parser::handle`.
  unfoldable pub handle : List (Matcher W M) → Bytes → Bool → ErrorCode → W → Reply W
  unfolding handle_from
  handle ms line eol ec w =
      handle_from ms line eol (record { state = State.none; ec = ec; env = w })

  -- The loop over the complete lines: the reply of the last handler, and what is left of `lines_`
  -- where it stopped the parser. All lines handled leave none.
  unfoldable pub handle_lines :
      List (Matcher W M) → List Bytes → ErrorCode → W → Option (List Bytes) × Reply W
  unfolding handle
  handle_lines ms [] ec w = (Option.none, record { state = State.none; ec = ec; env = w })
  handle_lines ms (l ∷ ls) ec w =
      let r = handle ms l true ec w in
      elim (is_done r.state || is_error r.ec) [
        | true ↦ (Option.some ls, r)
        | false ↦ handle_lines ms ls r.ec r.env
      ]

  -- The `lines_.push_back` and `line_.clear()` at the end of a line.
  unfoldable pub end_line : Parser W M → Parser W M
  unfolding is_blank
  end_line p =
      let kept = if is_blank p.line then p.lines else p.lines ++ p.line ∷ [] in
      record p { lines = kept; line = []; cr = false }

  -- The `switch` on the state of a partial line.
  unfoldable pub settle : State → Parser W M → Parser W M
  settle State.more p = record p { skip = true; line = [] }
  settle State.done p = record p { skip = true; line = [] }
  settle State.skip p = record p { skip = true; line = [] }
  settle State.next p = record p { line = [] }
  settle State.none p = p

  -- The end of `parse`: the complete lines are handled, and then the current one.
  unfoldable pub partial_line : Parser W M → ErrorCode → W → Parsed W M
  unfolding handle settle is_blank
  partial_line p ec w =
      let r = handle p.matchers p.line false ec w in
      if is_blank p.line
      then record { state = State.none; ec = ec; parser = p; env = w }
      else if is_done r.state || is_error r.ec
      then record { state = State.done; ec = r.ec; parser = p; env = r.env }
      else record { state = r.state; ec = r.ec; parser = settle r.state p; env = r.env }

  unfoldable pub offer : Parser W M → ErrorCode → W → Parsed W M
  unfolding handle_lines partial_line
  offer p ec w =
      let (stopped, r) = handle_lines p.matchers p.lines ec w in
      elim stopped [
        | Option.some rest ↦ record {
          state = State.done;
          ec = r.ec;
          parser = record p { lines = rest };
          env = r.env;
        }
        | Option.none ↦ partial_line (record p { lines = [] }) r.ec r.env
      ]

  -- A byte that is no line feed and is not skipped.
  unfoldable pub visible : Parser W M → ℕ → W → Parsed W M
  unfolding end_line offer
  visible p c w =
      let p' = if p.cr then end_line p else p in
      if c == b'\r'
      then record { state = State.none; ec = no_error; parser = record p' { cr = true }; env = w }
      else if c == 8
      then record { state = State.none; ec = no_error; parser = p'; env = w }
      else offer (record p' { line = p'.line ++ c ∷ [] }) no_error w

  -- `parser::parse`.
  unfoldable pub parse : Parser W M → ℕ → W → Parsed W M
  unfolding end_line visible
  parse p c w =
      if p.skip
      then record {
        state = State.none;
        ec = no_error;
        parser = if c == b'\n' then record p { skip = false } else p;
        env = w;
      }
      else if c == b'\n'
      then record { state = State.none; ec = no_error; parser = end_line p; env = w }
      else visible p c w

  -- `parse` on each byte in turn, whatever it returns.
  unfoldable pub feed : Parser W M → Bytes → W → Parser W M × W
  feed p [] w = (p, w)
  feed p (c ∷ cs) w = let r = parse p c w in feed r.parser cs r.env
