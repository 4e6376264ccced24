-- ===== src/Terminal/Manager/Texts.antt =====
-- The text that a manager writes, apart from the attributes.
use ice_coroutines.Base.{
  ℕ, false, Bool-cases, inl, inr, not, ◌||◌, String, List, [], ◌∷◌, ◌++◌, append-nil, append_assoc,
  ◌≡◌, refl, sym, ap, ◌∙◌, arith,
}
use ice_coroutines.Terminal.Format.{Style, conceal, Format, is_set}
use ice_coroutines.Terminal.Manager.{
  Stream, Piece, attribute, clear, text, Ttys, is_tty, color_sequence, style_sequence, set, reset,
  Manager, manager, manager_set, manager_reset, puts, Action, sets, resets, writes, act, live,
}

-- The texts among some pieces.
unfoldable pub texts : List Piece → List String
texts [] = []
texts (text s ∷ ps) = s ∷ texts ps
texts (attribute _ ∷ ps) = texts ps
texts (clear ∷ ps) = texts ps

pub texts-append : (xs ys : List Piece) → texts (xs ++ ys) ≡ texts xs ++ texts ys
unfolding texts
texts-append [] ys = refl
texts-append (text s ∷ xs) ys = ap (λ l. s ∷ l) (texts-append xs ys)
texts-append (attribute _ ∷ xs) ys = texts-append xs ys
texts-append (clear ∷ xs) ys = texts-append xs ys

-- Attributes have no text.
texts-color : (c : ℕ) → texts (color_sequence c) ≡ []
unfolding texts color_sequence
texts-color c = ground arith

texts-style :
    (f : Format) (s : Style) (sequence : String) (ps : List Piece)
    → texts (style_sequence f s sequence ++ ps) ≡ texts ps
unfolding texts
texts-style f s sequence ps = ground arith

texts-last : (f : Format) (s : Style) (sequence : String) → texts (style_sequence f s sequence) ≡ []
unfolding texts
texts-last f s sequence = ground arith

module _ (t : Ttys) where
  texts-set : (stream : Stream) (f : Format) → texts (set t stream f) ≡ []
  unfolding texts set
  texts-set stream f = elim (Bool-cases (not (is_set f) || not (is_tty t stream))) [
    | inl e ↦ rw e refl
    | inr e ↦
        rw
          (
            e, texts-append, texts-color, texts-style, texts-style, texts-style, texts-style,
            texts-style,
          )
          (texts-last f conceal "ESC[8m")
  ]

  texts-reset : (stream : Stream) → texts (reset t stream) ≡ []
  unfolding texts reset
  texts-reset stream = ground arith

  texts-manager_reset : (m : Manager) → texts (manager_reset t m).output ≡ texts m.output
  unfolding manager_reset
  texts-manager_reset m = ground (
    arith,
    texts-append m.output (reset t m.stream),
    texts-reset m.stream,
    append-nil (texts m.output),
  )

  texts-manager_set : (f : Format) (m : Manager) → texts (manager_set t f m).output ≡ texts m.output
  unfolding manager_set
  texts-manager_set f m =
      let m' = manager_reset t m in
      ground (
        arith,
        texts-manager_reset m,
        texts-append m'.output (set t m'.stream f),
        texts-set m'.stream f,
        append-nil (texts m'.output),
      )

-- What the actions of a manager write of text.
unfoldable pub words : List Action → List String
words [] = []
words (writes s ∷ more) = s ∷ words more
words (sets f ∷ more) = words more
words (resets ∷ more) = words more

pub words-append : (xs ys : List Action) → words (xs ++ ys) ≡ words xs ++ words ys
unfolding words
words-append [] ys = refl
words-append (writes s ∷ xs) ys = ap (λ l. s ∷ l) (words-append xs ys)
words-append (sets f ∷ xs) ys = words-append xs ys
words-append (resets ∷ xs) ys = words-append xs ys

module _ (t : Ttys) where
  pub live-texts :
      (m : Manager) (acts : List Action)
      → texts (live t m acts).output ≡ texts m.output ++ words acts
  unfolding live act words texts
  live-texts m [] = texts-manager_reset t m ∙ sym (append-nil (texts m.output))
  live-texts m (writes s ∷ more) =
      live-texts (puts t s m) more
      ∙ ap (λ l. l ++ words more) (texts-append m.output (text s ∷ []))
      ∙ append_assoc (texts m.output) (s ∷ []) (words more)
  live-texts m (sets f ∷ more) =
      live-texts (manager_set t f m) more ∙ ap (λ l. l ++ words more) (texts-manager_set t f m)
  live-texts m (resets ∷ more) =
      live-texts (manager_reset t m) more ∙ ap (λ l. l ++ words more) (texts-manager_reset t m)

pub texts-manager :
    (t : Ttys) (stream : Stream) (f : Format) → texts (manager t stream f).output ≡ []
unfolding manager texts
texts-manager t stream f =
    texts-manager_set t f (record { stream = stream; needs_reset = false; output = [] })
