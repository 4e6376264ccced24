-- ===== src/Net/Tcp/Accept.antt =====
-- What `accept` makes of every sequence of replies.
use ice_coroutines.Base.{
  ℕ, Option, none, some, List, [], ◌∷◌, ◌++◌, append_assoc, ◌≡◌, refl, ◌∙◌, ap, arith, returned,
  run,
}
use ice_coroutines.Net.Tcp.{Reply, Errnos, calling, event_step, accept_step}
use ice_coroutines.Net.Tcp.Recv.{
  IsErrnos, Round, interrupted, waits, round, rounds, Ending, transfers, refuses, add_fails,
  delete_fails, ending, IsEnding,
}

-- The client that the caller gets from the last round.
abbrev pub client : Ending → Option ℕ
client (transfers h) = some h
client _ = none

module _ (sys : Errnos) where
  accept-round :
      IsErrnos sys
      → (r : Round) (rest : List Reply)
      → run (accept_step sys) calling (round sys r ++ rest) ≡ run (accept_step sys) calling rest
  unfolding run accept_step event_step
  accept-round ok interrupted rest = ground arith
  accept-round ok (waits x) rest = ground (arith, ok.apart)

  accept-ending :
      IsErrnos sys
      → (e : Ending) (rest : List Reply) → IsEnding sys e
      → run (accept_step sys) calling (ending sys e ++ rest) ≡ returned (client e) rest
  unfolding run accept_step event_step
  accept-ending ok (transfers n) rest h = refl
  accept-ending ok (refuses e) rest h = ground arith
  accept-ending ok (add_fails e) rest h = ground (arith, ok.apart)
  accept-ending ok (delete_fails x e) rest h = ground (arith, ok.apart)

  -- `accept` takes any number of interrupted calls and of waits for the event, and then returns the
  -- client of the call that succeeds, or, where a call fails, a socket with no handle. The caller
  -- does not learn which error that was.
  pub accept_lem :
      IsErrnos sys
      → (rs : List Round) (e : Ending) (rest : List Reply) → IsEnding sys e
      → run (accept_step sys) calling (rounds sys rs ++ (ending sys e ++ rest))
        ≡ returned (client e) rest
  accept_lem ok [] e rest h = accept-ending ok e rest h
  accept_lem ok (r ∷ rs) e rest h =
      ap (run (accept_step sys) calling)
        (append_assoc (round sys r) (rounds sys rs) (ending sys e ++ rest))
      ∙ accept-round ok r (rounds sys rs ++ (ending sys e ++ rest))
      ∙ accept_lem ok rs e rest h
