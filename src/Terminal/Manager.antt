-- ===== src/Terminal/Manager.antt =====
-- The POSIX functions of terminal.cpp and the class `terminal::manager`. Text goes to a stream as a
-- list of pieces, as `std::fputs` is given them.
pub mod Laws
pub mod Texts
use ice_coroutines.Base.{
  ℕ, ◌==◌, Bool, true, false, not, ◌&&◌, ◌||◌, String, List, [], ◌∷◌, ◌++◌, if◌then◌else◌, ◌≡◌,
  refl, append_assoc, append-nil,
}
use ice_coroutines.Terminal.Format.{
  Style, bold, dark, underline, blink, reverse, conceal, Format, is_set, color_of, is,
}

-- What `FILE*` may be.
pub data Stream : Type 0 where
  stdout stderr other : Stream

-- What is written to a stream: an escape sequence that sets an attribute, the one that clears all
-- of them, and text of the program.
pub data Piece : Type 0 where
  attribute : String → Piece
  clear : Piece
  text : String → Piece

-- `terminal_manager`: what `isatty` said of the two streams at start.
pub record Ttys : Type 0 where
  pub stdout_is_tty : Bool
  pub stderr_is_tty : Bool

-- `terminal_manager::is_tty`.
unfoldable pub is_tty : Ttys → Stream → Bool
is_tty t stdout = t.stdout_is_tty
is_tty t stderr = t.stderr_is_tty
is_tty t other = false

-- The `switch` on the colour; the escape byte is written out as `ESC`.
unfoldable pub color_sequence : ℕ → List Piece
color_sequence c =
    if c == 1
    then attribute "ESC[38;2;130;130;130m" ∷ []
    else if c == 2
    then attribute "ESC[31m" ∷ []
    else if c == 3
    then attribute "ESC[32m" ∷ []
    else if c == 4
    then attribute "ESC[33m" ∷ []
    else if c == 5
    then attribute "ESC[34m" ∷ []
    else if c == 6
    then attribute "ESC[35m" ∷ []
    else if c == 7
    then attribute "ESC[36m" ∷ []
    else if c == 8
    then attribute "ESC[37m" ∷ []
    else []

abbrev pub style_sequence : Format → Style → String → List Piece
style_sequence f s sequence = if is f s then attribute sequence ∷ [] else []

-- `terminal_manager::set`.
unfoldable pub set : Ttys → Stream → Format → List Piece
unfolding is_tty color_sequence
set t stream f =
    if not (is_set f) || not (is_tty t stream)
    then []
    else color_sequence (color_of f)
      ++ (style_sequence f bold "ESC[1m"
          ++ (style_sequence f dark "ESC[2m"
              ++ (style_sequence f underline "ESC[4m"
                  ++ (style_sequence f blink "ESC[5m"
                      ++ (style_sequence f reverse "ESC[7m"
                          ++ style_sequence f conceal "ESC[8m")))))

-- `terminal_manager::reset`.
unfoldable pub reset : Ttys → Stream → List Piece
unfolding is_tty
reset t stream = if not (is_tty t stream) then [] else clear ∷ []

-- `terminal::manager`, with what it has written to its stream.
pub record Manager : Type 0 where
  pub stream : Stream
  pub needs_reset : Bool
  pub output : List Piece

module _ (t : Ttys) where
  -- `manager::reset`, and the destructor.
  unfoldable pub manager_reset : Manager → Manager
  unfolding reset
  manager_reset m =
      if m.needs_reset
      then record m { output = m.output ++ reset t m.stream; needs_reset = false }
      else m

  -- `manager::set`.
  unfoldable pub manager_set : Format → Manager → Manager
  unfolding set manager_reset
  manager_set f m =
      let m' = manager_reset m in
      if is_set f
      then record m' { output = m'.output ++ set t m'.stream f; needs_reset = true }
      else m'

  -- `manager(FILE* stream, format format)`.
  unfoldable pub manager : Stream → Format → Manager
  unfolding manager_set
  manager stream f = manager_set f (record { stream = stream; needs_reset = false; output = [] })

  -- Text that the program writes to the stream in between.
  abbrev pub puts : String → Manager → Manager
  puts words m = record m { output = m.output ++ text words ∷ [] }

-- What a program does with a manager before it is destroyed.
pub data Action : Type 0 where
  sets : Format → Action
  resets : Action
  writes : String → Action

-- The whole life of a manager.
unfoldable pub act : Ttys → Manager → Action → Manager
unfolding manager_set manager_reset
act t m (sets f) = manager_set t f m
act t m resets = manager_reset t m
act t m (writes words) = puts t words m

unfoldable pub live : Ttys → Manager → List Action → Manager
unfolding act
live t m [] = manager_reset t m
live t m (a ∷ more) = live t (act t m a) more
