-- ===== src/Terminal/Format.antt =====
-- `color`, `style` and `format`. A format is a 16-bit word: the colour in its low four bits, a style
-- in each of the six bits above them.
pub mod Laws
use ice_coroutines.Base.{
  ℕ, ◌+◌, ◌==◌, ◌≤◌, ◌<◌, ◌%◌, ◌^◌, bit_and, bit_or, Bool, true, false, not, List, [], ◌∷◌,
  if◌then◌else◌,
}

pub data Color : Type 0 where
  none grey red green yellow blue magenta cyan white : Color

abbrev pub color_value : Color → ℕ
color_value none = 0
color_value grey = 1
color_value red = 2
color_value green = 3
color_value yellow = 4
color_value blue = 5
color_value magenta = 6
color_value cyan = 7
color_value white = 8

-- The enumerators of `style`, but for its `none`.
pub data Style : Type 0 where
  bold dark underline blink reverse conceal : Style

abbrev pub style_value : Style → ℕ
style_value bold = 0x10
style_value dark = 0x20
style_value underline = 0x40
style_value blink = 0x80
style_value reverse = 0x100
style_value conceal = 0x200

-- `format::value_`.
abbrev pub Format : Type 0
Format = ℕ

-- The constructors from a colour and from a style.
abbrev pub of_color : Color → Format
of_color c = color_value c

abbrev pub of_style : Style → Format
of_style s = style_value s

-- `operator bool`.
abbrev pub is_set : Format → Bool
is_set f = not (f == 0)

-- `format::operator|(color)`, which changes the object.
unfoldable pub or_color : Format → Color → Format
or_color f c = bit_or (bit_and f 0xF0) (color_value c) % 2 ^ 16

-- `format::operator|(style)`.
unfoldable pub or_style : Format → Style → Format
or_style f s = bit_or f (style_value s) % 2 ^ 16

-- `format::color()`, as the number of an enumerator.
unfoldable pub color_of : Format → ℕ
color_of f = bit_and f 0x0F

-- `format::is`.
unfoldable pub is : Format → Style → Bool
is f s = not (bit_and f (style_value s) == 0)

-- The free operators, on a colour and a style in either order and on two styles.
unfoldable pub color_or_style : Color → Style → Format
color_or_style c s = bit_or (color_value c) (style_value s) % 2 ^ 16

unfoldable pub style_or_style : Style → Style → Format
style_or_style s t = bit_or (style_value s) (style_value t) % 2 ^ 16
