-- ===== src/Error/Native.antt =====
-- The category `native` of src/ice/src/ice/error.cpp: `native_category::format`, which brings the
-- operating system's text of an error number into the library's form, and the messages made of it.
pub mod Laws
use ice_coroutines.Base.{
  ℕ, ◌+◌, ◌==◌, leb, ltb, Bool, true, false, not, ◌&&◌, ◌||◌, List, [], ◌∷◌, Bytes, codes, take,
  if◌then◌else◌,
}

-- The bytes of "\r\n ".
abbrev pub is_blank : ℕ → Bool
is_blank c = c == b'\r' || c == b'\n' || c == b' '

-- `find_first_not_of(...) == npos`.
pub all_blank : Bytes → Bool
all_blank [] = true
all_blank (c ∷ cs) = is_blank c && all_blank cs

-- The suffix from the first byte that is not blank.
pub drop_blanks : Bytes → Bytes
drop_blanks [] = []
drop_blanks (c ∷ cs) = if is_blank c then drop_blanks cs else c ∷ cs

-- The prefix up to the last byte that is not blank.
pub keep_to_last : Bytes → Bytes
unfolding all_blank
keep_to_last [] = []
keep_to_last (c ∷ cs) = if is_blank c && all_blank cs then [] else c ∷ keep_to_last cs

-- `str.erase(0, pos)`, where there is such a position.
pub trim_front : Bytes → Bytes
unfolding all_blank drop_blanks
trim_front s = if all_blank s then s else drop_blanks s

-- `str.erase(pos)` at the first '.', if there is one.
pub cut_sentence : Bytes → Bytes
cut_sentence [] = []
cut_sentence (c ∷ cs) = if c == b'.' then [] else c ∷ cut_sentence cs

-- `str.erase(pos + 1)`, where there is such a position.
pub trim_back : Bytes → Bytes
unfolding all_blank keep_to_last
trim_back s = if all_blank s then s else keep_to_last s

abbrev pub is_printable : ℕ → Bool
is_printable c = leb b' ' c && leb c b'~'

-- `std::tolower` on a printable ASCII byte, in the "C" locale.
abbrev pub tolower : ℕ → ℕ
tolower c = if leb b'A' c && leb c b'Z' then c + 32 else c

-- The `std::transform`: the flag falls at the first byte that is not printable ASCII.
pub lower_ascii : Bool → Bytes → Bytes
lower_ascii ascii [] = []
lower_ascii ascii (c ∷ cs) =
    (if ascii && is_printable c then tolower c else c) ∷ lower_ascii (ascii && is_printable c) cs

-- `native_category::format`.
unfoldable pub format : Bytes → Bytes
unfolding trim_front cut_sentence trim_back lower_ascii
format s = lower_ascii true (trim_back (cut_sentence (trim_front s)))

-- `native_category::message` for POSIX systems, from the text of `std::system_category`.
unfoldable pub posix_message : Bytes → Bytes
posix_message text = format text

-- The text up to its first null byte, as `strnlen_s` measures it.
pub up_to_null : Bytes → Bytes
up_to_null [] = []
up_to_null (c ∷ cs) = if c == 0 then [] else c ∷ up_to_null cs

-- `native_category::message` for Windows. `wide` is the text of `FormatMessageW`, empty where it
-- fails; `convert` is `WideCharToMultiByte` into a buffer of some size: the count that it returns,
-- the one needed for a size of 0, and the bytes that it stores.
unfoldable pub windows_message : (Bytes → ℕ → ℕ × Bytes) → Bytes → Bytes
windows_message convert [] = codes "unknown error"
windows_message convert (w ∷ wide) =
    let size = (convert (w ∷ wide) 0).0 + 1 in
    let (count, bytes) = convert (w ∷ wide) size in
    if ltb 0 count then format (up_to_null (take count bytes)) else codes "unknown error"
