-- ===== src/Error/Throw.antt =====
-- `throw_exception` of src/ice/include/ice/error.hpp where exceptions are switched off, up to its call of
-- `abort`. `fmt::format`, the names of the categories and the texts of the codes are parameters.
use ice_coroutines.Base.{
  ℤ, String, List, [], ◌∷◌, ◌++◌, false, Bool-cases, inl, inr, ◌≡◌, refl, ◌∙◌, ap, arith,
}
use ice_coroutines.Error.{ErrorCode}
use ice_coroutines.Terminal.Format.{red, bold, color_or_style}
use ice_coroutines.Terminal.Manager.{
  stderr, Piece, Ttys, is_tty, manager, manager_reset, set, reset, puts, Action, writes, live, act,
}
use ice_coroutines.Terminal.Manager.Laws.{styled, manager-clean}
use ice_coroutines.Terminal.Manager.Texts.{texts, words, live-texts, texts-manager}

pub data Arg : Type 0 where
  text : String → Arg
  number : ℤ → Arg

pub record Texts : Type 0 where
  pub format : String → List Arg → String
  pub category_name : ErrorCode → String
  pub message : ErrorCode → String

-- The exceptions that are told apart: those derived from `std::system_error`, and others.
pub data Exception : Type 0 where
  system_error : ErrorCode → String → Exception
  exception : String → Exception

-- The line for an error.
abbrev pub error_text : Texts → ErrorCode → String → String
error_text t ec message =
    t.format "{} error {}: {} ({})"
      (text (t.category_name ec) ∷ number ec.value ∷ text message ∷ text (t.message ec) ∷ [])

unfoldable pub exception_line : Texts → Exception → String
exception_line t (system_error ec what) =
    t.format "{} error {}: {} ({})\n"
      (text (t.category_name ec) ∷ number ec.value ∷ text what ∷ text (t.message ec) ∷ [])
exception_line t (exception what) = t.format "critical error: {}\n" (text what ∷ [])

unfoldable pub throw_exception : Texts → Ttys → Exception → List Piece
unfolding manager manager_reset color_or_style exception_line
throw_exception t ttys e =
    let m = manager ttys stderr (color_or_style red bold) in
    (manager_reset ttys (puts ttys (exception_line t e) m)).output

as_live :
    (t : Texts) (ttys : Ttys) (e : Exception)
    → throw_exception t ttys e
      ≡ (live ttys
          (manager ttys stderr (color_or_style red bold))
          (writes (exception_line t e) ∷ [])).output
unfolding throw_exception live act
as_live t ttys e = refl

no_terminal :
    (t : Texts) (ttys : Ttys) (e : Exception)
    → is_tty ttys stderr ≡ false
    → throw_exception t ttys e ≡ Piece.text (exception_line t e) ∷ []
unfolding throw_exception set reset
no_terminal t ttys e h = ground (arith, h)

-- It writes one text, the line for the exception, and leaves a terminal with no attribute.
pub throw_exception_lem :
    (t : Texts) (ttys : Ttys) (e : Exception)
    → (texts (throw_exception t ttys e) ≡ exception_line t e ∷ [])
      × (styled false (throw_exception t ttys e) ≡ false)
unfolding texts words styled
throw_exception_lem t ttys e =
    let m = manager ttys stderr (color_or_style red bold) in
    let acts : List Action = writes (exception_line t e) ∷ [] in
    (
      ap texts (as_live t ttys e)
          ∙ live-texts ttys m acts
          ∙ ap (λ l. l ++ exception_line t e ∷ [])
              (texts-manager ttys stderr (color_or_style red bold)),
      elim (Bool-cases (is_tty ttys stderr)) [
        | inl h ↦
            ap (styled false) (as_live t ttys e)
            ∙ manager-clean ttys stderr (color_or_style red bold) acts h
        | inr h ↦ ap (styled false) (no_terminal t ttys e h)
      ],
    )
