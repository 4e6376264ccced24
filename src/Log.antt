-- ===== src/Log.antt =====
-- src/ice/include/ice/log.hpp and src/ice/src/ice/log.cpp: the levels, and what `print` writes.
pub mod Laws
pub mod Queue
pub mod Sink
pub mod Stop
pub mod Wait
pub mod Front
mod Tests
use ice_coroutines.Base.{
  ℕ, ◌+◌, ◌==◌, ltb, Bool, true, false, String, List, [], ◌∷◌, ◌++◌, if◌then◌else◌,
}
use ice_coroutines.Terminal.Format.{
  Color, cyan, blue, magenta, red, yellow, green, grey, Format, of_color, is_set,
}
use ice_coroutines.Terminal.Manager.{
  Stream, stdout, stderr, Piece, text, Ttys, is_tty, Manager, manager, manager_set, manager_reset,
  puts,
}

-- `level`; `other n` is the number `n + 9`, which has no name.
pub data Level : Type 0 where
  emergency alert critical error warning notice info debug custom : Level
  other : ℕ → Level

abbrev pub level_value : Level → ℕ
level_value emergency = 0
level_value alert = 1
level_value critical = 2
level_value error = 3
level_value warning = 4
level_value notice = 5
level_value info = 6
level_value debug = 7
level_value custom = 8
level_value (other n) = n + 9

-- `get_level_format`; the format without any bit is 0.
unfoldable pub get_level_format : Level → Format
get_level_format emergency = of_color cyan
get_level_format alert = of_color blue
get_level_format critical = of_color magenta
get_level_format error = of_color red
get_level_format warning = of_color yellow
get_level_format notice = of_color green
get_level_format info = 0
get_level_format debug = of_color grey
get_level_format custom = 0
get_level_format (other n) = 0

-- `get_level_string`.
unfoldable pub get_level_string : Level → Bool → String
get_level_string emergency padding = if padding then "emergency" else "emergency"
get_level_string alert padding = if padding then "alert    " else "alert"
get_level_string critical padding = if padding then "critical " else "critical"
get_level_string error padding = if padding then "error    " else "error"
get_level_string warning padding = if padding then "warning  " else "warning"
get_level_string notice padding = if padding then "notice   " else "notice"
get_level_string info padding = if padding then "info     " else "info"
get_level_string debug padding = if padding then "debug    " else "debug"
get_level_string custom padding = if padding then "custom   " else "custom"
get_level_string (other n) padding = if padding then "unknown  " else "unknown"

-- `entry`: the time as it is formatted; the message as `std::fputs` writes it, up to its first null
-- byte, and as `fmt::print` writes it, whole.
pub record Entry : Type 0 where
  pub time : String
  pub level : Level
  pub format : Format
  pub message_data : String
  pub message : String

-- The stream of `print`.
unfoldable pub entry_stream : Level → Stream
entry_stream l = if ltb (level_value error) (level_value l) then stdout else stderr

-- The test for `level::debug`.
abbrev pub is_debug : Level → Bool
is_debug l = level_value l == level_value debug

-- `print`: all that it writes to its stream. Each text is one argument of `std::fputs`, or of
-- `fmt::print`.
module _ (t : Ttys) where
  -- The branch for a terminal, with the destructor of the manager.
  unfoldable pub print_tty : Entry → List Piece
  unfolding manager manager_set manager_reset get_level_format get_level_string entry_stream
  print_tty e =
      let level_format = get_level_format e.level in
      let m1 =
        puts t (get_level_string e.level true) (manager t (entry_stream e.level) level_format) in
      let m2 = puts t "] " (manager_reset t m1) in
      let m3 =
        if is_set e.format
        then manager_set t e.format m2
        else if is_debug e.level
        then manager_set t level_format m2
        else m2 in
      let m4 = manager_reset t (puts t e.message_data m3) in
      (manager_reset t (puts t "\n" m4)).output

  unfoldable pub print : Entry → List Piece
  unfolding is_tty print_tty entry_stream
  print e =
      text e.time
      ∷ text " ["
      ∷ (if is_tty t (entry_stream e.level)
          then print_tty e
          else text (get_level_string e.level true) ∷ text "] " ∷ text e.message ∷ text "\n" ∷ [])
