-- ===== src/Net/Options/Socket.antt =====
-- `get` and `set` of src/ice/include/ice/net/socket.hpp for an option, over the `data()` and `size()` of
-- src/ice/include/ice/net/option.hpp. The memory of an option is its words of 32 bits, and the options of
-- the system are a parameter with what their documentation says.
mod Tests
use ice_coroutines.Base.{
  ℕ, suc, ◌<◌, ◌==◌, ℤ, pos, negsuc, Bool, true, false, not, Option, none, some, List, [], ◌∷◌, ◌≡◌,
  ◌≢◌, refl, ap, sym, ◌∙◌, arith, if◌then◌else◌,
}
use ice_coroutines.Error.{ErrorCode, no_error, of_errno}
use ice_coroutines.Net.Options.{
  Constants, Kind, broadcast, do_not_route, keep_alive, reuse_address, linger, level, name,
  OptionValue, Linger, option_value_bool, get_bool, make_linger, get_linger,
}

-- What `getsockopt` gives: an error number, or the words that it writes and the size that it stores.
pub data Got : Type 0 where
  refused : ℕ → Got
  wrote : List ℤ → ℕ → Got

abbrev pub is_zero : ℤ → Bool
is_zero (pos n) = n == 0
is_zero (negsuc n) = false

-- The options of `SOL_SOCKET` that are documented as flags, and their numbers.
pub data Flag : Type 0 where
  so_broadcast so_dontroute so_keepalive so_reuseaddr : Flag

abbrev pub flag_number : Constants → Flag → ℕ
flag_number c so_broadcast = c.so_broadcast
flag_number c so_dontroute = c.so_dontroute
flag_number c so_keepalive = c.so_keepalive
flag_number c so_reuseaddr = c.so_reuseaddr

abbrev pub same_flag : Flag → Flag → Bool
same_flag so_broadcast so_broadcast = true
same_flag so_dontroute so_dontroute = true
same_flag so_keepalive so_keepalive = true
same_flag so_reuseaddr so_reuseaddr = true
same_flag _ _ = false

-- A socket of the system has its flags and its linger time. A flag is written and read as an `int` of 4 bytes,
-- where any number but zero is true. A `struct linger` has 8 bytes: it is written if all of them are
-- given, and `getsockopt` writes as many as there is room for.
pub record Sockets (c : Constants) : Type 1 where
  pub State : Type 0
  pub flag : State → Flag → Bool
  pub linger_time : State → Option ℤ
  pub setsockopt : State → ℕ → ℕ → List ℤ → ℕ → Option ℕ × State
  pub getsockopt : State → ℕ → ℕ → ℕ → Got
  pub einval : ℕ
  pub set_flag :
      (f g : Flag) (s : State) (v : ℤ)
      → let (e, t) = setsockopt s c.sol_socket (flag_number c f) (v ∷ []) 4 in
        (e ≡ none)
        × (flag t g ≡ (if same_flag f g then not (is_zero v) else flag s g))
        × (linger_time t ≡ linger_time s)
  pub get_flag :
      (f : Flag) (s : State)
      → (w : ℤ) × (getsockopt s c.sol_socket (flag_number c f) 4 ≡ wrote (w ∷ []) 4)
        × (flag s f ≡ not (is_zero w))
  pub set_short :
      (s : State) (words : List ℤ) (size : ℕ)
      → size < 8
      → setsockopt s c.sol_socket c.so_linger words size ≡ (some einval, s)
  pub get_short : (s : State) → getsockopt s c.sol_socket c.so_linger 0 ≡ wrote [] 0

-- The class for a flag.
abbrev pub kind : Flag → Kind
kind so_broadcast = broadcast
kind so_dontroute = do_not_route
kind so_keepalive = keep_alive
kind so_reuseaddr = reuse_address

-- The result of the call in `set`.
abbrev pub code : Option ℕ → ErrorCode
code none = no_error
code (some e) = of_errno e

-- `data()` of a value, and what a call writes there.
unfoldable pub load_value : List ℤ → ℕ → OptionValue → OptionValue
load_value [] n o = record o { size = n }
load_value (w ∷ ws) n o = record { value = w; size = n }

-- `data()` of a `linger`: `l_onoff` and `l_linger`.
abbrev pub magnitude : ℤ → ℕ
magnitude (pos n) = n
magnitude (negsuc n) = suc n

unfoldable pub linger_data : Linger → List ℤ
linger_data o = pos o.l_onoff ∷ o.l_linger ∷ []

unfoldable pub load_linger : List ℤ → ℕ → Linger → Linger
load_linger [] n o = record o { size = n }
load_linger (w ∷ []) n o = record o { l_onoff = magnitude w; size = n }
load_linger (w ∷ v ∷ ws) n o = record { l_onoff = magnitude w; l_linger = v; size = n }

module _ {c : Constants} (os : Sockets c) where
  open os use {
    State, flag, linger_time, setsockopt, getsockopt, einval, set_flag, get_flag, set_short,
    get_short,
  }

  -- `set(option)` and `get(option)` for a value.
  unfoldable pub set_value : Kind → OptionValue → State → ErrorCode × State
  unfolding level name
  set_value k o s =
      let (e, t) = setsockopt s (level c k) (name c k) (o.value ∷ []) o.size in (code e, t)

  unfoldable pub get_value : Kind → State → OptionValue → ErrorCode × OptionValue
  unfolding level name load_value
  get_value k s o = elim (getsockopt s (level c k) (name c k) o.size) [
    | refused e ↦ (of_errno e, o)
    | wrote ws n ↦ (no_error, load_value ws n o)
  ]

  -- And for a `linger`.
  unfoldable pub set_linger : Linger → State → ErrorCode × State
  unfolding level name linger_data
  set_linger o s =
      let (e, t) = setsockopt s (level c linger) (name c linger) (linger_data o) o.size in
      (code e, t)

  unfoldable pub get_linger_option : State → Linger → ErrorCode × Linger
  unfolding level name load_linger
  get_linger_option s o = elim (getsockopt s (level c linger) (name c linger) o.size) [
    | refused e ↦ (of_errno e, o)
    | wrote ws n ↦ (no_error, load_linger ws n o)
  ]

  got-flag : (w : ℤ) (o : OptionValue) → get_bool (load_value (w ∷ []) 4 o) ≡ not (is_zero w)
  unfolding get_bool load_value
  got-flag w o = ground arith

  made-flag : (b : Bool) → not (is_zero (option_value_bool b).value) ≡ b
  unfolding option_value_bool
  made-flag true = refl
  made-flag false = refl

  set_value-flag :
      (f : Flag) (b : Bool) (s : State)
      → set_value (kind f) (option_value_bool b) s ≡ (
        no_error,
        (setsockopt s c.sol_socket (flag_number c f) ((option_value_bool b).value ∷ []) 4).1,
      )
  unfolding set_value name option_value_bool
  set_value-flag so_broadcast b s = rw (set_flag so_broadcast so_broadcast s _).0 refl
  set_value-flag so_dontroute b s = rw (set_flag so_dontroute so_broadcast s _).0 refl
  set_value-flag so_keepalive b s = rw (set_flag so_keepalive so_broadcast s _).0 refl
  set_value-flag so_reuseaddr b s = rw (set_flag so_reuseaddr so_broadcast s _).0 refl

  linger-refused : (t : Option ℤ) (s : State) → set_linger (make_linger t) s ≡ (of_errno einval, s)
  unfolding set_linger make_linger
  linger-refused none s = rw (set_short s _ 0 (omega arith)) refl
  linger-refused (some n) s = rw (set_short s _ 0 (omega arith)) refl

  linger-unread :
      (t : Option ℤ) (s : State) → get_linger_option s (make_linger t) ≡ (no_error, make_linger t)
  unfolding get_linger_option make_linger
  linger-unread none s = rw (get_linger_option, get_short s) refl
  linger-unread (some n) s = rw (get_linger_option, get_short s) refl

  get_value-wrote :
      (f : Flag) (o : OptionValue) (s : State) (w : ℤ)
      → o.size ≡ 4
      → getsockopt s c.sol_socket (flag_number c f) 4 ≡ wrote (w ∷ []) 4
      → get_value (kind f) s o ≡ (no_error, load_value (w ∷ []) 4 o)
  unfolding get_value name
  get_value-wrote so_broadcast o s w z e = rw (get_value, z, e) refl
  get_value-wrote so_dontroute o s w z e = rw (get_value, z, e) refl
  get_value-wrote so_keepalive o s w z e = rw (get_value, z, e) refl
  get_value-wrote so_reuseaddr o s w z e = rw (get_value, z, e) refl

  get_value-flag :
      (f : Flag) (d : Bool) (s : State)
      → (o : OptionValue) × (get_value (kind f) s (option_value_bool d) ≡ (no_error, o))
        × (get_bool o ≡ flag s f)
  unfolding option_value_bool
  get_value-flag f d s =
      let (w, e, z) = get_flag f s in
      (_, get_value-wrote f (option_value_bool d) s w refl e, got-flag w _ ∙ sym z)

  -- For each flag that the system documents: `set` with an option of its class succeeds, gives the flag of the
  -- socket the value of the option and changes no other flag and not the linger time; and `get` succeeds and
  -- gives an option of its class the value of the flag. A `linger` option has the size 0, whatever its
  -- timeout: `set` is refused with `EINVAL` and leaves the socket as it is, and `get` succeeds with
  -- the timeout that the option had before, whatever the linger time of the socket.
  pub options_lem :
      (f g : Flag) (b d : Bool) (t : Option ℤ) (s : State)
      → (let (e, s') = set_value (kind f) (option_value_bool b) s in
          (e ≡ no_error)
          × (flag s' g ≡ (if same_flag f g then b else flag s g))
          × (linger_time s' ≡ linger_time s))
        × ((o : OptionValue) × (get_value (kind f) s (option_value_bool d) ≡ (no_error, o))
            × (get_bool o ≡ flag s f))
        × (set_linger (make_linger t) s ≡ (of_errno einval, s))
        × (get_linger_option s (make_linger t) ≡ (no_error, make_linger t))
  options_lem f g b d t s =
      let (e, sets, keeps) = set_flag f g s (option_value_bool b).value in
      (
        rw (set_value-flag f b s)
            (refl, sets ∙ ap (λ v. if same_flag f g then v else flag s g) (made-flag b), keeps),
        get_value-flag f d s,
        linger-refused t s,
        linger-unread t s,
      )
