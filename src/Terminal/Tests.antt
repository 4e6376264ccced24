-- ===== src/Terminal/Tests.antt =====
-- A bold red format on a terminal, and a manager that sets two formats.
use ice_coroutines.Base.{true, false, List, [], ◌∷◌, ◌≡◌, refl}
use ice_coroutines.Terminal.Format.{Format}
use ice_coroutines.Terminal.Manager.{stdout, Ttys, sets, resets, writes, Action, is_tty}
use ice_coroutines.Terminal.Windows.{Foreground, Consoles, set}

abbrev bold_red : Format
bold_red = 0x12

abbrev ttys : Ttys
ttys = record { stdout_is_tty = true; stderr_is_tty = false }

abbrev actions : List Action
actions = writes "one" ∷ sets 0x20 ∷ writes "two" ∷ resets ∷ sets 0x13 ∷ []

stdout-is_tty : is_tty ttys stdout ≡ true
unfolding is_tty
stdout-is_tty = refl

abbrev foreground : Foreground
foreground = record { blue = 1; green = 2; red = 4; intensity = 8 }

abbrev consoles : Consoles
consoles = record { ttys = ttys; stdout_default_attributes = 0x17; stderr_default_attributes = 7 }

-- A red text on the background that the console has.
red_attribute : set foreground consoles stdout 2 0x17 ≡ 0x1C
unfolding set
red_attribute = refl
