-- ===== src/Serial/Device.antt =====
-- `serial::default_device`. What `QueryDosDevice` gives is a parameter: the names of the devices, each
-- behind its null byte, or the last error. The pattern is `COM\d+`.
use ice_coroutines.Base.{
  ℕ, zero, suc, ◌+◌, ◌==◌, leb, Bool, true, false, ◌&&◌, List, [], ◌∷◌, ◌++◌, Bytes, ◌≡◌, refl, ap,
  arith, Next, goto, ret, returned, run, if◌then◌else◌,
}

unfoldable pub all_digits : Bytes → Bool
all_digits [] = true
all_digits (c ∷ cs) = leb 48 c && leb c 57 && all_digits cs

-- `std::regex_match(str, sm, re)`.
unfoldable pub is_com : Bytes → Bool
unfolding all_digits
is_com (a ∷ b ∷ c ∷ d ∷ ds) =
    a == b'C' && b == b'O' && c == b'M' && leb 48 d && leb d 57 && all_digits ds
is_com _ = false

-- The first match, or "COM1".
abbrev pub fallback : Bytes
fallback = b'C' ∷ b'O' ∷ b'M' ∷ b'1' ∷ []

-- The `for` loop over the buffer, with the bytes of the name that it is in.
unfoldable pub find_device : Bytes → Bytes → Bytes
unfolding is_com
find_device name [] = if is_com name then name else fallback
find_device name (zero ∷ rest) = elim (is_com name) [ true ↦ name | false ↦ find_device [] rest ]
find_device name (suc c ∷ rest) = find_device (name ++ suc c ∷ []) rest

pub data Reply : Type 0 where
  names : Bytes → Reply
  failed : ℕ → Reply

-- The `do` loop, at its call of `QueryDosDevice` with a buffer of some size, and what follows it.
unfoldable pub query_step : ℕ → ℕ → ℕ → Reply → Next ℕ Bytes
unfolding find_device
query_step max_path error_insufficient_buffer size (names []) = ret fallback
query_step max_path error_insufficient_buffer size (names (c ∷ cs)) = ret (find_device [] (c ∷ cs))
query_step max_path error_insufficient_buffer size (failed e) =
    if e == error_insufficient_buffer then goto (size + max_path) else ret fallback

-- The names in the buffer.
unfoldable pub split : Bytes → Bytes → List Bytes
split name [] = name ∷ []
split name (zero ∷ rest) = name ∷ split [] rest
split name (suc c ∷ rest) = split (name ++ suc c ∷ []) rest

-- The first of some names that is a port, or "COM1".
unfoldable pub first_com : List Bytes → Bytes
unfolding is_com
first_com [] = fallback
first_com (n ∷ ns) = elim (is_com n) [ true ↦ n | false ↦ first_com ns ]

find_device-split : (name rest : Bytes) → find_device name rest ≡ first_com (split name rest)
unfolding find_device split first_com
find_device-split name [] = ground arith
find_device-split name (zero ∷ rest) = ground (arith, find_device-split [] rest)
find_device-split name (suc c ∷ rest) = find_device-split (name ++ suc c ∷ []) rest

abbrev pub growing : ℕ → ℕ → List Reply
growing error zero = []
growing error (suc n) = failed error ∷ growing error n

no_names : fallback ≡ first_com (split [] [])
unfolding first_com split is_com
no_names = refl

-- However often the buffer is too small, `default_device` asks again with a larger one, and returns
-- the first name that the system gives and that matches `COM\d+`, or "COM1" if none does.
pub query_step-names :
    (max_path error size n : ℕ) (bytes : Bytes) (rest : List Reply)
    → run (query_step max_path error) size (growing error n ++ names bytes ∷ rest)
      ≡ returned (first_com (split [] bytes)) rest
unfolding run query_step
query_step-names max_path error size zero [] rest = ap (λ d. returned d rest) no_names
query_step-names max_path error size zero (c ∷ cs) rest =
    ap (λ d. returned d rest) (find_device-split [] (c ∷ cs))
query_step-names max_path error size (suc n) bytes rest =
    ground (arith, query_step-names max_path error (size + max_path) n bytes rest)
