-- ===== src/Process/Laws.antt =====
-- When the path is found, and when the loop does not end.
use ice_coroutines.Base.{
  ℕ, zero, suc, ◌+◌, ◌-◌, ◌*◌, ◌==◌, ◌<◌, ◌≤◌, ◌%◌, ◌^◌, Option, none, some, [], ◌∷◌, ◌++◌, Bytes,
  length, ◌≡◌, ◌≢◌, ◌⊎◌, inl, inr, Bool-cases, refl, ap, ◌∙◌, arith, if◌then◌else◌, true, false,
  ltb,
}
use native.Mathlib.Decide.{dec_lt}
use ice_coroutines.Process.{resize, Filled, last_error, Numbers, windows_path, freebsd_path}

resize-length : (text rest : Bytes) → resize (length text) (text ++ rest) ≡ text
unfolding resize
resize-length [] rest = refl
resize-length (c ∷ text) rest = ap (λ l. c ∷ l) (resize-length text rest)

itself : (e : ℕ) → (e == e) ≡ true
itself e = ground arith

apart : {a b : ℕ} → a ≢ b → (a == b) ≡ false
apart h = ground arith

equal-or : (a b : ℕ) → (a ≡ b) ⊎ (a ≢ b)
equal-or a b = elim (Bool-cases (a == b)) [
  | inl e ↦ inl (ground (arith, e))
  | inr e ↦ inr (λ f. ground (arith, e))
]

below : {a b : ℕ} → a < b → ltb a b ≡ true
below h = ground arith

above : {a b : ℕ} → b ≤ a → ltb a b ≡ false
above h = ground arith

-- An error that is left as it was, or set, is left or set again.
again :
    {e : ℕ} (success : Option ℕ) (error : ℕ)
    → last_error success error ≡ e
    → last_error success e ≡ e
again none error h = refl
again (some x) error h = h

-- What is documented of `GetModuleFileNameW` for a program of that name: a buffer with room for it and a
-- null character gets it, and any other the error.
pub record IsDocumented (sys : Numbers) (call : ℕ → Filled) (name : Bytes) : Type 0 where
  pub fits : (s : ℕ) → length name < s → (call s).size ≡ length name
  pub filled : (s : ℕ) → length name < s → (rest : Bytes) × ((call s).text ≡ name ++ rest)
  pub truncates : (s : ℕ) → s ≤ length name → (call s).error ≡ some sys.insufficient

-- What is not: the last error behind a call that succeeds. Each of them sets the same number, or each leaves the
-- one that was there.
abbrev pub Succeeds : (ℕ → Filled) → Bytes → Option ℕ → Type 0
Succeeds call name success = (s : ℕ) → length name < s → (call s).error ≡ success

module _ (sys : Numbers) (call : ℕ → Filled) (name : Bytes) (success : Option ℕ)
    (doc : IsDocumented sys call name) (sets : Succeeds call name success) where
  -- The round that finds room.
  windows_path-room :
      (fuel error size : ℕ)
      → length name < size + sys.max_path
      → size + sys.max_path < 2 ^ 32
      → windows_path sys call (suc fuel) error size ≡ (
          if last_error success error == sys.insufficient
          then windows_path sys call fuel (last_error success error) (size + sys.max_path)
          else some name)
  unfolding windows_path
  windows_path-room fuel error size room small =
      let kept : (size + sys.max_path) % 2 ^ 32 ≡ size + sys.max_path = omega arith in
      let (rest, text) = doc.filled (size + sys.max_path) room in
      rw kept
        (rw (sets _ room) (rw (doc.fits _ room) (rw text (rw (resize-length name rest) refl))))

  -- A round that finds too little.
  windows_path-grows :
      (fuel error size : ℕ)
      → size + sys.max_path ≤ length name
      → size + sys.max_path < 2 ^ 32
      → windows_path sys call (suc fuel) error size
        ≡ windows_path sys call fuel sys.insufficient (size + sys.max_path)
  unfolding windows_path
  windows_path-grows fuel error size short small =
      let kept : (size + sys.max_path) % 2 ^ 32 ≡ size + sys.max_path = omega arith in
      rw kept (rw (doc.truncates _ short) (rw (itself sys.insufficient) refl))

  windows_path-found :
      last_error success sys.insufficient ≢ sys.insufficient
      → length name + sys.max_path < 2 ^ 32
      → (fuel size : ℕ) → size ≤ length name
      → length name < size + fuel * sys.max_path
      → windows_path sys call fuel sys.insufficient size ≡ some name
  windows_path-found ok small zero size le enough = absurd (omega arith)
  windows_path-found ok small (suc fuel) size le enough =
      elim (dec_lt (length name) (size + sys.max_path)) [
        | yes room ↦
            windows_path-room fuel sys.insufficient size room (omega arith) ∙ rw (apart ok) refl
        | no short ↦
            windows_path-grows fuel sys.insufficient size (omega arith) (omega arith)
            ∙ windows_path-found ok small fuel (size + sys.max_path) (omega arith) (grind arith)
      ]

  leaves :
      last_error success sys.insufficient ≡ sys.insufficient
      → (s : ℕ) → last_error (call s).error sys.insufficient ≡ sys.insufficient
  leaves stale s = elim (dec_lt (length name) s) [
    | yes room ↦ rw (sets s room) stale
    | no short ↦ rw (doc.truncates s (omega arith)) refl
  ]

  windows_path-stale :
      last_error success sys.insufficient ≡ sys.insufficient
      → (fuel size : ℕ) → windows_path sys call fuel sys.insufficient size ≡ none
  unfolding windows_path
  windows_path-stale stale zero size = refl
  windows_path-stale stale (suc fuel) size =
      rw (leaves stale ((size + sys.max_path) % 2 ^ 32))
        (rw (itself sys.insufficient) (windows_path-stale stale fuel (size + sys.max_path)))

  -- The last error behind the first call that finds room.
  abbrev pub behind : ℕ → ℕ
  behind error =
      last_error success (if ltb (length name) sys.max_path then error else sys.insufficient)

  windows_path-short :
      (error fuel : ℕ)
      → length name < sys.max_path
      → length name + sys.max_path < 2 ^ 32
      → windows_path sys call (suc fuel) error 0
        ≡ (if last_error success error == sys.insufficient then none else some name)
  windows_path-short error fuel room small =
      elim (equal-or (last_error success error) sys.insufficient) [
        | inl e ↦
            windows_path-room fuel error 0 (omega arith) (omega arith)
            ∙ rw e (
                rw (itself sys.insufficient)
                  (windows_path-stale (again success error e) fuel (0 + sys.max_path)))
        | inr n ↦ windows_path-room fuel error 0 (omega arith) (omega arith) ∙ rw (apart n) refl
      ]

  windows_path-long :
      (error fuel : ℕ)
      → sys.max_path ≤ length name
      → length name + sys.max_path < 2 ^ 32
      → length name < suc fuel * sys.max_path
      → windows_path sys call (suc fuel) error 0
        ≡ (if last_error success sys.insufficient == sys.insufficient then none else some name)
  windows_path-long error fuel short small enough =
      elim (equal-or (last_error success sys.insufficient) sys.insufficient) [
        | inl e ↦
            windows_path-grows fuel error 0 (omega arith) (omega arith)
            ∙ windows_path-stale e fuel (0 + sys.max_path)
            ∙ rw e (rw (itself sys.insufficient) refl)
        | inr n ↦
            windows_path-grows fuel error 0 (omega arith) (omega arith)
            ∙ windows_path-found n small fuel (0 + sys.max_path) (omega arith) (omega arith)
            ∙ rw (apart n) refl
      ]

  -- For a name that is more than `MAX_PATH` below 2 ^ 32, and calls of which every one that succeeds sets
  -- the same last error or every one sets none: the loop for Windows ends with the whole name if the last
  -- error behind its first call with room for the name is another than `ERROR_INSUFFICIENT_BUFFER`, in at
  -- most one round more than `MAX_PATH` goes into its length; otherwise it does not end, however long it runs. That error is what the call sets, and
  -- where it sets none, that of the thread before `path` for a name shorter than `MAX_PATH`, and for any
  -- other the one of the calls that found no room, so that the loop does not end.
  pub windows_path_lem :
      (error fuel : ℕ)
      → length name + sys.max_path < 2 ^ 32
      → length name < fuel * sys.max_path
      → windows_path sys call fuel error 0
        ≡ (if behind error == sys.insufficient then none else some name)
  windows_path_lem error zero small enough = absurd (omega arith)
  windows_path_lem error (suc fuel) small enough = elim (dec_lt (length name) sys.max_path) [
    | yes room ↦ windows_path-short error fuel room small ∙ rw (below room) refl
    | no long ↦
        windows_path-long error fuel (omega arith) small enough
        ∙ rw (above {a = length name} {b = sys.max_path} (omega arith)) refl
  ]

-- FreeBSD: a name that the second `sysctl` stores with a null character behind it is the path.
pub freebsd_path_lem :
    (name : Bytes)
    → freebsd_path (some (length name + 1)) (λ size. some (size, name ++ 0 ∷ [])) ≡ name
unfolding freebsd_path
freebsd_path_lem name =
    let shorter : (if ltb 0 (length name + 1) then length name + 1 - 1 else 0) ≡ length name =
      ground arith in
    rw shorter (resize-length name (0 ∷ []))
