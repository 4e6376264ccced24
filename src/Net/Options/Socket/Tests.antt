-- ===== src/Net/Options/Socket/Tests.antt =====
-- A system that keeps the flags and the linger time, with made-up numbers.
use ice_coroutines.Base.{
  ℕ, ◌==◌, ltb, ℤ, pos, Bool, true, false, not, ap, Option, none, some, List, [], ◌∷◌, ◌≡◌, refl,
  arith, if◌then◌else◌,
}
use ice_coroutines.Error.{no_error, of_errno}
use ice_coroutines.Net.Options.{Constants, OptionValue, option_value_bool, get_bool, make_linger}
use ice_coroutines.Net.Options.Socket.{
  Got, wrote, is_zero, Flag, so_broadcast, so_dontroute, so_keepalive, so_reuseaddr, flag_number,
  same_flag, kind, Sockets, set_value, get_value, set_linger, get_linger_option, options_lem,
}

abbrev numbers : Constants
numbers = record {
  sol_socket = 1;
  so_broadcast = 6;
  so_dontroute = 5;
  so_keepalive = 9;
  so_linger = 13;
  tcp_nodelay = 1;
  so_rcvbuf = 8;
  so_sndbuf = 7;
  so_rcvlowat = 18;
  so_sndlowat = 19;
  so_reuseaddr = 2;
}

-- The flags, and the linger time.
abbrev State : Type 0
State = (Flag → Bool) × Option ℤ

abbrev flag_of : ℕ → Option Flag
flag_of n =
    if n == 6
    then some so_broadcast
    else if n == 5
    then some so_dontroute
    else if n == 9
    then some so_keepalive
    else if n == 2
    then some so_reuseaddr
    else none

abbrev first : List ℤ → ℤ
first [] = pos 0
first (w ∷ ws) = w

abbrev written : Option Flag → List ℤ → State → State
written none ws s = s
written (some f) ws s = ((λ g. if same_flag f g then not (is_zero (first ws)) else s.0 g), s.1)

abbrev setsockopt : State → ℕ → ℕ → List ℤ → ℕ → Option ℕ × State
setsockopt s l n ws size =
    if n == 13
    then (if ltb size 8 then (some 22, s) else (none, (s.0, some (first ws))))
    else (none, written (flag_of n) ws s)

abbrev read : Option Flag → State → Got
read none s = wrote [] 0
read (some f) s = wrote ((if s.0 f then pos 1 else pos 0) ∷ []) 4

abbrev getsockopt : State → ℕ → ℕ → ℕ → Got
getsockopt s l n size = if n == 13 then wrote [] 0 else read (flag_of n) s

read-flag : (b : Bool) → (w : ℤ) × ((if b then pos 1 else pos 0) ≡ w) × (b ≡ not (is_zero w))
read-flag true = (pos 1, refl, refl)
read-flag false = (pos 0, refl, refl)

read-wrote :
    (s : State) (f : Flag)
    → (w : ℤ) × (wrote ((if s.0 f then pos 1 else pos 0) ∷ []) 4 ≡ wrote (w ∷ []) 4)
      × (s.0 f ≡ not (is_zero w))
read-wrote s f = let (w, e, z) = read-flag (s.0 f) in (w, ap (λ x. wrote (x ∷ []) 4) e, z)

system : Sockets numbers
system = record {
  State = State;
  flag = λ s. s.0;
  linger_time = λ s. s.1;
  setsockopt = setsockopt;
  getsockopt = getsockopt;
  einval = 22;
  set_flag = sets;
  get_flag = gets;
  set_short = λ s words size h. ground arith;
  get_short = λ s. refl;
}
  where
    sets :
        (f g : Flag) (s : State) (v : ℤ)
        → let (e, t) = setsockopt s 1 (flag_number numbers f) (v ∷ []) 4 in
          (e ≡ none) × (t.0 g ≡ (if same_flag f g then not (is_zero v) else s.0 g)) × (t.1 ≡ s.1)
    sets so_broadcast g s v = (refl, refl, refl)
    sets so_dontroute g s v = (refl, refl, refl)
    sets so_keepalive g s v = (refl, refl, refl)
    sets so_reuseaddr g s v = (refl, refl, refl)

    gets :
        (f : Flag) (s : State)
        → (w : ℤ) × (getsockopt s 1 (flag_number numbers f) 4 ≡ wrote (w ∷ []) 4)
          × (s.0 f ≡ not (is_zero w))
    gets so_broadcast s = read-wrote s so_broadcast
    gets so_dontroute s = read-wrote s so_dontroute
    gets so_keepalive s = read-wrote s so_keepalive
    gets so_reuseaddr s = read-wrote s so_reuseaddr

fresh : system.State
unfolding system
fresh = (λ f. false, none)

options_lem_example :
    (let (e, s) = set_value system (kind so_keepalive) (option_value_bool true) fresh in
      (e ≡ no_error)
      × (system.flag s so_broadcast ≡ system.flag fresh so_broadcast)
      × (system.linger_time s ≡ system.linger_time fresh))
    × ((o : OptionValue) × (get_value system (kind so_keepalive) fresh (option_value_bool true)
          ≡ (no_error, o))
        × (get_bool o ≡ system.flag fresh so_keepalive))
    × (set_linger system (make_linger (some (pos 5))) fresh ≡ (of_errno system.einval, fresh))
    × (get_linger_option system fresh (make_linger (some (pos 5)))
        ≡ (no_error, make_linger (some (pos 5))))
options_lem_example = options_lem system so_keepalive so_broadcast true true (some (pos 5)) fresh
