-- ===== src/Error/Native/Laws.antt =====
-- The form of the texts that `format` returns.
use ice_coroutines.Base.{
  ◌==◌, Bool, true, false, not, ◌&&◌, ◌||◌, [], ◌∷◌, Bytes, ◌≡◌, refl, arith, ◌∙◌, ap, ℕ, ◌+◌, ltb,
  codes, take, Bool-cases, inl, inr,
}
use ice_coroutines.Error.Native.{
  is_blank, all_blank, drop_blanks, keep_to_last, trim_front, cut_sentence, trim_back, is_printable,
  lower_ascii, format, posix_message, up_to_null, windows_message,
}

-- The first byte is not blank.
abbrev pub first_kept : Bytes → Bool
first_kept [] = true
first_kept (c ∷ cs) = not (is_blank c)

-- The last byte is not blank.
pub last_kept : Bytes → Bool
unfolding all_blank
last_kept [] = true
last_kept (c ∷ cs) = not (is_blank c && all_blank cs) && last_kept cs

pub has_stop : Bytes → Bool
has_stop [] = false
has_stop (c ∷ cs) = c == b'.' || has_stop cs

-- No full stop, and no blank at either end of a text that is not all blank.
pub record IsTrimmed (s : Bytes) : Type 0 where
  pub no_stop : has_stop s ≡ false
  pub front : (all_blank s || first_kept s) ≡ true
  pub back : (all_blank s || last_kept s) ≡ true

first_kept-drop_blanks : (s : Bytes) → first_kept (drop_blanks s) ≡ true
unfolding drop_blanks
first_kept-drop_blanks [] = refl
first_kept-drop_blanks (c ∷ cs) = ground (arith, first_kept-drop_blanks cs)

trim_front_front : (s : Bytes) → (all_blank (trim_front s) || first_kept (trim_front s)) ≡ true
unfolding trim_front
trim_front_front s = ground (arith, first_kept-drop_blanks s)

has_stop-cut_sentence : (s : Bytes) → has_stop (cut_sentence s) ≡ false
unfolding has_stop cut_sentence
has_stop-cut_sentence [] = refl
has_stop-cut_sentence (c ∷ cs) = ground (arith, has_stop-cut_sentence cs)

all_blank-cut_sentence : (s : Bytes) → all_blank s ≡ true → all_blank (cut_sentence s) ≡ true
unfolding all_blank cut_sentence
all_blank-cut_sentence [] h = refl
all_blank-cut_sentence (c ∷ cs) h = ground (arith, all_blank-cut_sentence cs)

first_kept-cut_sentence : (s : Bytes) → first_kept s ≡ true → first_kept (cut_sentence s) ≡ true
unfolding cut_sentence
first_kept-cut_sentence [] h = refl
first_kept-cut_sentence (c ∷ cs) h = ground arith

all_blank-keep_to_last : (s : Bytes) → all_blank (keep_to_last s) ≡ true → all_blank s ≡ true
unfolding all_blank keep_to_last
all_blank-keep_to_last [] h = refl
all_blank-keep_to_last (c ∷ cs) h = ground (arith, all_blank-keep_to_last cs)

last_kept-keep_to_last : (s : Bytes) → last_kept (keep_to_last s) ≡ true
unfolding last_kept keep_to_last
last_kept-keep_to_last [] = refl
last_kept-keep_to_last (c ∷ cs) =
    ground (arith, last_kept-keep_to_last cs, all_blank-keep_to_last cs)

has_stop-keep_to_last : (s : Bytes) → has_stop s ≡ false → has_stop (keep_to_last s) ≡ false
unfolding has_stop keep_to_last
has_stop-keep_to_last [] h = refl
has_stop-keep_to_last (c ∷ cs) h = ground (arith, has_stop-keep_to_last cs)

first_kept-keep_to_last : (s : Bytes) → first_kept s ≡ true → first_kept (keep_to_last s) ≡ true
unfolding keep_to_last
first_kept-keep_to_last [] h = refl
first_kept-keep_to_last (c ∷ cs) h = ground arith

-- The three cuts of `format`.
abbrev trimmed : Bytes → Bytes
trimmed s = trim_back (cut_sentence (trim_front s))

cuts-IsTrimmed : (s : Bytes) → IsTrimmed (trimmed s)
unfolding trim_back
cuts-IsTrimmed s =
    let u = trim_front s in
    let v = cut_sentence u in
    record {
      no_stop = ground (arith, has_stop-cut_sentence u, has_stop-keep_to_last v);
      front = ground (
        arith,
        trim_front_front s,
        all_blank-cut_sentence u,
        first_kept-cut_sentence u,
        first_kept-keep_to_last v,
      );
      back = ground (arith, last_kept-keep_to_last v);
    }

all_blank-lower_ascii : (b : Bool) (s : Bytes) → all_blank (lower_ascii b s) ≡ all_blank s
unfolding lower_ascii all_blank
all_blank-lower_ascii b [] = refl
all_blank-lower_ascii b (c ∷ cs) = ground (arith, all_blank-lower_ascii (b && is_printable c) cs)

last_kept-lower_ascii : (b : Bool) (s : Bytes) → last_kept (lower_ascii b s) ≡ last_kept s
unfolding lower_ascii last_kept
last_kept-lower_ascii b [] = refl
last_kept-lower_ascii b (c ∷ cs) = ground (
  arith,
  last_kept-lower_ascii (b && is_printable c) cs,
  all_blank-lower_ascii (b && is_printable c) cs,
)

has_stop-lower_ascii : (b : Bool) (s : Bytes) → has_stop (lower_ascii b s) ≡ has_stop s
unfolding lower_ascii has_stop
has_stop-lower_ascii b [] = refl
has_stop-lower_ascii b (c ∷ cs) = ground (arith, has_stop-lower_ascii (b && is_printable c) cs)

first_kept-lower_ascii : (b : Bool) (s : Bytes) → first_kept (lower_ascii b s) ≡ first_kept s
unfolding lower_ascii
first_kept-lower_ascii b [] = refl
first_kept-lower_ascii b (c ∷ cs) = ground arith

-- A text that `format` returns has no full stop, and no blank at either end unless all its bytes
-- are blank.
pub format-IsTrimmed : (s : Bytes) → IsTrimmed (format s)
unfolding format
format-IsTrimmed s =
    let t = trimmed s in
    let v = cuts-IsTrimmed s in
    record {
      no_stop = has_stop-lower_ascii true t ∙ v.no_stop;
      front = rw (all_blank-lower_ascii true t, first_kept-lower_ascii true t) v.front;
      back = rw (all_blank-lower_ascii true t, last_kept-lower_ascii true t) v.back;
    }

drop_blanks_kept : (s : Bytes) → first_kept s ≡ true → drop_blanks s ≡ s
unfolding drop_blanks
drop_blanks_kept [] h = refl
drop_blanks_kept (c ∷ cs) h = ground arith

cut_sentence_none : (s : Bytes) → has_stop s ≡ false → cut_sentence s ≡ s
unfolding cut_sentence has_stop
cut_sentence_none [] h = refl
cut_sentence_none (c ∷ cs) h = ground (arith, cut_sentence_none cs)

keep_to_last_kept : (s : Bytes) → last_kept s ≡ true → keep_to_last s ≡ s
unfolding keep_to_last last_kept
keep_to_last_kept [] h = refl
keep_to_last_kept (c ∷ cs) h = ground (arith, keep_to_last_kept cs)

trimmed-IsTrimmed : (s : Bytes) → IsTrimmed s → trimmed s ≡ s
unfolding trim_front trim_back
trimmed-IsTrimmed s v = ground (arith, drop_blanks_kept s, cut_sentence_none s, keep_to_last_kept s)

lower_ascii_idem : (b : Bool) (s : Bytes) → lower_ascii b (lower_ascii b s) ≡ lower_ascii b s
unfolding lower_ascii
lower_ascii_idem b [] = refl
lower_ascii_idem b (c ∷ cs) = ground (arith, lower_ascii_idem (b && is_printable c) cs)

-- Formatting a text once more changes nothing.
pub format_idem : (s : Bytes) → format (format s) ≡ format s
unfolding format
format_idem s =
    ap (lower_ascii true) (trimmed-IsTrimmed (format s) (format-IsTrimmed s))
    ∙ lower_ascii_idem true (trimmed s)

-- A text in the library's form: formatting it once more changes nothing.
abbrev pub IsFormatted : Bytes → Type 0
IsFormatted s = IsTrimmed s × (format s ≡ s)

format-IsFormatted : (s : Bytes) → IsFormatted (format s)
format-IsFormatted s = (format-IsTrimmed s, format_idem s)

unknown-IsFormatted : IsFormatted (codes "unknown error")
unfolding has_stop all_blank last_kept format
unknown-IsFormatted = (record { no_stop = refl; front = refl; back = refl }, refl)

-- Whatever the system says of an error number, and whichever of its calls fail, the message of the
-- category `native` is in the library's form on both kinds of systems: no full stop, no blank at
-- either end unless all its bytes are blank, and formatting it once more changes nothing.
message-IsFormatted :
    (text : Bytes) (convert : Bytes → ℕ → ℕ × Bytes) (wide : Bytes)
    → IsFormatted (posix_message text) × IsFormatted (windows_message convert wide)
unfolding posix_message windows_message
message-IsFormatted text convert [] = (format-IsFormatted text, unknown-IsFormatted)
message-IsFormatted text convert (w ∷ wide) =
    let size = (convert (w ∷ wide) 0).0 + 1 in
    let (count, bytes) = convert (w ∷ wide) size in
    (
      format-IsFormatted text,
      elim (Bool-cases (ltb 0 count)) [
        | inl e ↦ rw e (format-IsFormatted (up_to_null (take count bytes)))
        | inr e ↦ rw e unknown-IsFormatted
      ],
    )
