-- ===== src/Process/Tests.antt =====
-- A program with a name of three bytes, and a `MAX_PATH` of 2.
use ice_coroutines.Base.{ℕ, ltb, Option, some, [], ◌∷◌, ◌++◌, Bytes, ◌≡◌, arith, if◌then◌else◌}
use ice_coroutines.Process.{Filled, Numbers, windows_path}
use ice_coroutines.Process.Laws.{IsDocumented, Succeeds, windows_path_lem}

abbrev numbers : Numbers
numbers = record { max_path = 2; insufficient = 122 }

abbrev name : Bytes
name = b'i' ∷ b'c' ∷ b'e' ∷ []

abbrev windows : Option ℕ → ℕ → Filled
windows success s =
    if ltb 3 s
    then record { size = 3; error = success; text = name ++ 0 ∷ [] }
    else record { size = s; error = some 122; text = [] }

windows-IsDocumented : (success : Option ℕ) → IsDocumented numbers (windows success) name
windows-IsDocumented success = record {
  fits = λ s h. ground arith;
  filled = λ s h. (0 ∷ [], ground arith);
  truncates = λ s h. ground arith;
}

windows-Succeeds : (success : Option ℕ) → Succeeds (windows success) name success
windows-Succeeds success s h = ground arith

windows_path_lem_example : windows_path numbers (windows (some 0)) 2 122 0 ≡ some name
windows_path_lem_example =
    windows_path_lem numbers (windows (some 0)) name (some 0) (windows-IsDocumented (some 0))
      (windows-Succeeds (some 0)) 122 2 (ground arith) (ground arith)
