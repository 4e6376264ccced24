-- ===== src/Process.antt =====
-- src/ice/src/ice/process.cpp: the path of the program, on each system. What the calls of the system
-- give is a parameter; `std::filesystem` keeps the text.
pub mod Laws
mod Tests
use ice_coroutines.Base.{
  ℕ, zero, suc, ◌+◌, ◌-◌, ◌==◌, ◌%◌, ◌^◌, ltb, Option, none, some, List, [], ◌∷◌, Bytes,
  if◌then◌else◌,
}

-- `std::basic_string::resize`: what is added is null characters.
unfoldable pub resize : ℕ → Bytes → Bytes
resize zero text = []
resize (suc n) [] = 0 ∷ resize n []
resize (suc n) (c ∷ text) = c ∷ resize n text

-- What `GetModuleFileNameW` returns for a buffer, the last error that it sets, `none` where it leaves
-- that of an earlier call, and the text in the buffer afterwards.
pub record Filled : Type 0 where
  pub size : ℕ
  pub error : Option ℕ
  pub text : Bytes

-- `GetLastError` behind a call, from what it was before.
abbrev pub last_error : Option ℕ → ℕ → ℕ
last_error none before = before
last_error (some e) before = e

-- `MAX_PATH` and `ERROR_INSUFFICIENT_BUFFER`.
pub record Numbers : Type 0 where
  pub max_path : ℕ
  pub insufficient : ℕ

module _ (sys : Numbers) (call : ℕ → Filled) where
  -- The `do` loop for Windows, from a size of the string and a last error of the thread; `none` where
  -- the fuel runs out. The size is given as a `DWORD`.
  unfoldable pub windows_path : ℕ → ℕ → ℕ → Option Bytes
  unfolding resize
  windows_path zero error size = none
  windows_path (suc fuel) error size =
      let longer = size + sys.max_path in
      let r = call (longer % 2 ^ 32) in
      let again = windows_path fuel (last_error r.error error) longer in
      if last_error r.error error == sys.insufficient then again else some (resize r.size r.text)

-- Linux: what `realpath` gives for "/proc/self/exe".
unfoldable pub linux_path : Option Bytes → Bytes
linux_path none = []
linux_path (some text) = text

-- FreeBSD: the size that the first `sysctl` stores, and what the second stores in a string of that
-- size, with the size of it; `none` where a call fails.
unfoldable pub freebsd_path : Option ℕ → (ℕ → Option (ℕ × Bytes)) → Bytes
unfolding resize
freebsd_path none second = []
freebsd_path (some size) second = elim (second size) [
  | none ↦ []
  | some (stored, text) ↦ resize (if ltb 0 stored then stored - 1 else 0) text
]
