-- ===== src/Base/Text.antt =====
-- Texts that the source walks byte by byte are lists of byte values.
use Prim.Native.Char.{code}
use Prim.Native.String.{String}
use Prim.Native.Nat.{ℕ}
use mathlib.Core.Path.{◌≡◌}
use mathlib.Core.Bool.{Bool, true, false, ◌&&◌}
use mathlib.Core.List.{List, [], ◌∷◌}
use native.Mathlib.Omega.{arith}
use ice_coroutines.Base.Tests.{◌==◌}

abbrev pub Bytes : Type 0
Bytes = List ℕ

-- The code points of a literal; every literal used with it is ASCII.
abbrev pub codes : String → Bytes
codes String.[] = []
codes (String.◌∷◌ c s) = code c ∷ codes s

-- `a == b` on `std::string`.
unfoldable pub equal : Bytes → Bytes → Bool
equal [] [] = true
equal (x ∷ xs) (y ∷ ys) = x == y && equal xs ys
equal _ _ = false

-- Texts that the test takes for the same are the same.
pub equal_sound : (left right : Bytes) → equal left right ≡ true → left ≡ right
unfolding equal
equal_sound (c ∷ left) (d ∷ right) same = ground (arith, equal_sound left right)
equal_sound [] [] same = ground arith
equal_sound [] (d ∷ right) same = ground arith
equal_sound (c ∷ left) [] same = ground arith
