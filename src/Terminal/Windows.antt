-- ===== src/Terminal/Windows.antt =====
-- src/ice/src/ice/terminal.cpp for Windows, where a console has 16 bits of attributes for what is
-- written next, and the class `terminal::manager` over it.
pub mod Laws
use ice_coroutines.Base.{
  ℕ, ◌==◌, ◌-◌, ◌^◌, bit_and, bit_or, Bool, true, false, not, ◌||◌, List, [], ◌∷◌, if◌then◌else◌,
}
use ice_coroutines.Terminal.Format.{dark, Format, is_set, color_of, is}
use ice_coroutines.Terminal.Manager.{
  Stream, stdout, stderr, other, Ttys, is_tty, Action, sets, resets, writes,
}

-- `FOREGROUND_BLUE` and the other bits of the system.
pub record Foreground : Type 0 where
  pub blue : ℕ
  pub green : ℕ
  pub red : ℕ
  pub intensity : ℕ

-- `terminal_manager`: what `_isatty` said, and the attributes that each console had at start.
pub record Consoles : Type 0 where
  pub ttys : Ttys
  pub stdout_default_attributes : ℕ
  pub stderr_default_attributes : ℕ

-- `attributes`.
unfoldable pub attributes : Consoles → Stream → ℕ
attributes c stdout = c.stdout_default_attributes
attributes c stderr = c.stderr_default_attributes
attributes c other = 0

-- `terminal::manager`, with the attributes of the console of its stream.
pub record Manager : Type 0 where
  pub stream : Stream
  pub needs_reset : Bool
  pub attribute : ℕ

module _ (fg : Foreground) (c : Consoles) where
  -- The attributes that `set(stream, format, color)` gives to the console.
  unfoldable pub colored : Stream → Format → ℕ → ℕ
  unfolding attributes is
  colored stream f color =
      let base = bit_and (attributes c stream) (2 ^ 32 - 1 - bit_and (attributes c stream) 0x0F) in
      bit_or (if not (is f dark) then bit_or base fg.intensity else base) color

  -- The attributes behind `set(stream, format)`, from those before.
  unfoldable pub set : Stream → Format → ℕ → ℕ
  unfolding colored color_of is_tty
  set stream f before =
      if not (is_set f) || not (is_tty c.ttys stream)
      then before
      else if color_of f == 1
      then colored stream f 0
      else if color_of f == 2
      then colored stream f fg.red
      else if color_of f == 3
      then colored stream f fg.green
      else if color_of f == 4
      then colored stream f (bit_or fg.green fg.red)
      else if color_of f == 5
      then colored stream f fg.blue
      else if color_of f == 6
      then colored stream f (bit_or fg.blue fg.red)
      else if color_of f == 7
      then colored stream f (bit_or fg.blue fg.green)
      else if color_of f == 8
      then colored stream f (bit_or (bit_or fg.blue fg.green) fg.red)
      else before

  -- The attributes behind `reset(stream)`.
  unfoldable pub reset : Stream → ℕ → ℕ
  reset stream before = if not (is_tty c.ttys stream) then before else attributes c stream

  -- `manager::reset`, and the destructor.
  unfoldable pub manager_reset : Manager → Manager
  manager_reset m =
      if m.needs_reset
      then record m { attribute = reset m.stream m.attribute; needs_reset = false }
      else m

  -- `manager::set`.
  unfoldable pub manager_set : Format → Manager → Manager
  manager_set f m =
      let m' = manager_reset m in
      if is_set f
      then record m' { attribute = set m'.stream f m'.attribute; needs_reset = true }
      else m'

  -- `manager(FILE* stream, format format)`, on a console with some attributes.
  unfoldable pub manager : Stream → Format → ℕ → Manager
  manager stream f before =
      manager_set f (record { stream = stream; needs_reset = false; attribute = before })

  -- The whole life of a manager. Text of the program leaves the attributes as they are.
  unfoldable pub act : Manager → Action → Manager
  act m (sets f) = manager_set f m
  act m resets = manager_reset m
  act m (writes words) = m

  unfoldable pub live : Manager → List Action → Manager
  live m [] = manager_reset m
  live m (a ∷ more) = live (act m a) more
