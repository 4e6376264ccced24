-- ===== src/Terminal/Format/Laws.antt =====
-- What the operators on formats keep. Every format that the operators make is below 2 ^ 10, so the
-- laws are checked on all of these.
use ice_coroutines.Base.{
  ℕ, ◌==◌, ◌<◌, ltb, Bool, true, false, not, ◌&&◌, ◌||◌, ◌≡◌, refl, arith, all_below,
  all_below_sound,
}
use ice_coroutines.Terminal.Format.{
  Color, none, grey, red, green, yellow, blue, magenta, cyan, white, color_value, Style, bold, dark,
  underline, blink, reverse, conceal, style_value, Format, of_color, of_style, or_color, or_style,
  color_of, is, color_or_style, style_or_style,
}

abbrev same_bit : Bool → Bool → Bool
same_bit true b = b
same_bit false b = not b

-- A format with nothing but a colour and styles.
abbrev pub IsFormat : Format → Type 0
IsFormat f = f < 1024

abbrev pub same_style : Style → Style → Bool
same_style s t = style_value s == style_value t

-- The styles that `operator|(color)` keeps: those with a bit in 0xF0.
abbrev pub kept_by_color : Style → Bool
kept_by_color reverse = false
kept_by_color conceal = false
kept_by_color _ = true

style_check : Style → Style → Format → Bool
style_check s t f =
    ltb (or_style f s) 1024
    && color_of (or_style f s) == color_of f
    && same_bit (is (or_style f s) t) (same_style s t || is f t)

style_table : (s t : Style) → all_below 1024 (style_check s t) ≡ true
unfolding all_below style_check or_style color_of is
style_table bold bold = refl
style_table bold _ = refl
style_table dark bold = refl
style_table dark _ = refl
style_table underline bold = refl
style_table underline _ = refl
style_table blink bold = refl
style_table blink _ = refl
style_table reverse bold = refl
style_table reverse _ = refl
style_table conceal bold = refl
style_table conceal _ = refl

color_check : Color → Style → Format → Bool
color_check c t f =
    ltb (or_color f c) 1024
    && color_of (or_color f c) == color_value c
    && same_bit (is (or_color f c) t) (is f t && kept_by_color t)

color_table : (c : Color) (t : Style) → all_below 1024 (color_check c t) ≡ true
unfolding all_below color_check or_color color_of is
color_table none bold = refl
color_table none _ = refl
color_table grey bold = refl
color_table grey _ = refl
color_table red bold = refl
color_table red _ = refl
color_table green bold = refl
color_table green _ = refl
color_table yellow bold = refl
color_table yellow _ = refl
color_table blue bold = refl
color_table blue _ = refl
color_table magenta bold = refl
color_table magenta _ = refl
color_table cyan bold = refl
color_table cyan _ = refl
color_table white bold = refl
color_table white _ = refl

checked :
    (a n b c : ℕ) (p q : Bool)
    → (ltb a n && b == c && same_bit p q) ≡ true
    → (a < n) × (b ≡ c) × (p ≡ q)
checked a n b c p q h = ground arith

-- Adding a style to a format keeps its colour, sets that style and leaves all others as they are.
pub or_style_lem :
    (f : Format) (s t : Style)
    → IsFormat f
    → IsFormat (or_style f s)
      × (color_of (or_style f s) ≡ color_of f)
      × (is (or_style f s) t ≡ (same_style s t || is f t))
unfolding style_check
or_style_lem f s t h =
    checked (or_style f s) 1024 _ _ _ _
      (all_below_sound 1024 f (style_check s t) (style_table s t) h)

-- Adding a colour to a format sets the colour and keeps bold, dark, underline and blink as they
-- are; reverse and conceal are off afterwards, whatever they were.
pub or_color_lem :
    (f : Format) (c : Color) (t : Style)
    → IsFormat f
    → IsFormat (or_color f c)
      × (color_of (or_color f c) ≡ color_value c)
      × (is (or_color f c) t ≡ (is f t && kept_by_color t))
unfolding color_check
or_color_lem f c t h =
    checked (or_color f c) 1024 _ _ _ _
      (all_below_sound 1024 f (color_check c t) (color_table c t) h)

-- The free operators agree with the members: a colour joined to a style, and a style to a style.
pub color_or_style_lem :
    (c : Color) (s t : Style)
    → (color_or_style c s ≡ or_style (of_color c) s)
      × (style_or_style s t ≡ or_style (of_style s) t)
unfolding color_or_style style_or_style or_style
color_or_style_lem c s t = (refl, refl)
