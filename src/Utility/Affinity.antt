-- ===== src/Utility/Affinity.antt =====
-- `set_thread_affinity` of src/ice/src/ice/utility.cpp. The assert on the number of processors is not in
-- force.
use ice_coroutines.Base.{
  ℕ, ◌^◌, ◌<◌, ◌≤◌, ltb, ◌==◌, Bool-cases, inl, inr, ◌⊎◌, Option, none, some, ◌≡◌, arith,
  if◌then◌else◌,
}
use ice_coroutines.Error.{ErrorCode, no_error, of_errno}

-- `DWORD_PTR(1) << index`; `none` is a shift that C++ leaves undefined.
unfoldable pub affinity_mask : ℕ → Option ℕ
affinity_mask index = if ltb index 64 then some (2 ^ index) else none

-- What the system makes of a mask: `none` is success, `some` the last error.
unfoldable pub set_affinity_windows : (ℕ → Option ℕ) → ℕ → Option ErrorCode
unfolding affinity_mask
set_affinity_windows system index = elim (affinity_mask index) [
  | none ↦ none
  | some mask ↦ elim (system mask) [ none ↦ some no_error | some e ↦ some (of_errno e) ]
]

-- `CPU_SET` for an empty set of so many processors, which ignores those beyond them.
unfoldable pub cpu_set : ℕ → ℕ → Option ℕ
cpu_set size index = if ltb index size then some index else none

-- The set goes to the system, which returns an error number or 0.
unfoldable pub set_affinity_posix : ℕ → (Option ℕ → ℕ) → ℕ → ErrorCode
unfolding cpu_set
set_affinity_posix size system index =
    let rc = system (cpu_set size index) in if rc == 0 then no_error else of_errno rc

-- Below 64, and below the size of a set, each system is asked for the one processor, and its error is
-- returned; from 64 on the mask for Windows is undefined.
pub set_affinity_lem :
    (index size : ℕ) (windows : ℕ → Option ℕ) (posix : Option ℕ → ℕ)
    → index < size
    → ((index < 64)
          × (set_affinity_windows windows index
              ≡ elim (windows (2 ^ index)) [ none ↦ some no_error | some e ↦ some (of_errno e) ])
        ⊎ (64 ≤ index) × (set_affinity_windows windows index ≡ none))
      × (set_affinity_posix size posix index
          ≡ (if posix (some index) == 0 then no_error else of_errno (posix (some index))))
unfolding set_affinity_windows set_affinity_posix cpu_set
set_affinity_lem index size windows posix h = elim (Bool-cases (ltb index 64)) [
  | inl e ↦ (inl (ground arith, ground (arith, e)), ground arith)
  | inr e ↦ (inr (ground arith, ground (arith, e)), ground arith)
]
