-- ===== src/Log/Laws.antt =====
-- What `print` writes with a terminal and without one.
use ice_coroutines.Base.{
  true, false, Bool-cases, inl, inr, String, List, [], ◌∷◌, ◌++◌, ◌≡◌, refl, ap, ◌∙◌, arith,
  if◌then◌else◌,
}
use ice_coroutines.Terminal.Format.{is_set}
use ice_coroutines.Terminal.Manager.{Ttys, is_tty, manager, Action, sets, resets, writes, act, live}
use ice_coroutines.Terminal.Manager.Laws.{styled, manager-clean}
use ice_coroutines.Terminal.Manager.Texts.{texts, words, words-append, live-texts, texts-manager}
use ice_coroutines.Log.{
  Entry, get_level_format, get_level_string, entry_stream, is_debug, print_tty, print,
}

-- The format of the message: its own, or that of the level for a debug entry.
unfoldable pub message_format : Entry → List Action
message_format e =
    if is_set e.format
    then sets e.format ∷ []
    else if is_debug e.level
    then sets (get_level_format e.level) ∷ []
    else []

abbrev ending : Entry → List Action
ending e = writes e.message_data ∷ resets ∷ writes "\n" ∷ []

abbrev actions : Entry → List Action
actions e =
    writes (get_level_string e.level true) ∷ resets ∷ writes "] " ∷ (message_format e ++ ending e)

-- On a terminal `print` is the life of one manager.
print_tty-live :
    (t : Ttys) (e : Entry)
    → print_tty t e
      ≡ (live t (manager t (entry_stream e.level) (get_level_format e.level)) (actions e)).output
unfolding print_tty live act message_format
print_tty-live t e = ground arith

words-format : (e : Entry) → words (message_format e) ≡ []
unfolding words message_format
words-format e = ground arith

words-actions :
    (e : Entry)
    → words (actions e) ≡ get_level_string e.level true ∷ "] " ∷ e.message_data ∷ "\n" ∷ []
unfolding words
words-actions e =
    ap (λ l. get_level_string e.level true ∷ "] " ∷ l)
      (words-append (message_format e) (ending e)
        ∙ ap (λ l. l ++ (e.message_data ∷ "\n" ∷ [])) (words-format e))

abbrev pub line : Entry → String → List String
line e message = e.time ∷ " [" ∷ get_level_string e.level true ∷ "] " ∷ message ∷ "\n" ∷ []

print-terminal :
    (t : Ttys) (e : Entry)
    → is_tty t (entry_stream e.level) ≡ true
    → (texts (print t e) ≡ line e e.message_data) × (styled false (print t e) ≡ false)
unfolding print texts styled
print-terminal t e h =
    let m = manager t (entry_stream e.level) (get_level_format e.level) in
    rw (h, print_tty-live t e)
      (
        ap (λ l. e.time ∷ " [" ∷ l)
            (live-texts t m (actions e)
              ∙ ap (λ l. l ++ words (actions e))
                  (texts-manager t (entry_stream e.level) (get_level_format e.level))
              ∙ words-actions e),
        manager-clean t (entry_stream e.level) (get_level_format e.level) (actions e) h,
      )

print-file :
    (t : Ttys) (e : Entry)
    → is_tty t (entry_stream e.level) ≡ false
    → (texts (print t e) ≡ line e e.message) × (styled false (print t e) ≡ false)
unfolding print texts styled
print-file t e h = rw h (refl, refl)

-- `print` writes the same text to a terminal and to any other stream, but for a message with a null
-- byte, which a terminal gets up to that byte: the time, the level in brackets and the message, in one
-- line. Behind it a terminal has no attribute set.
pub print_lem :
    (t : Ttys) (e : Entry)
    → (texts (print t e)
        ≡ line e (if is_tty t (entry_stream e.level) then e.message_data else e.message))
      × (styled false (print t e) ≡ false)
print_lem t e = elim (Bool-cases (is_tty t (entry_stream e.level))) [
  | inl h ↦ rw h (print-terminal t e h)
  | inr h ↦ rw h (print-file t e h)
]
