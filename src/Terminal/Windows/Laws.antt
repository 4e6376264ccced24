-- ===== src/Terminal/Windows/Laws.antt =====
-- A manager leaves its console as the program found it.
use ice_coroutines.Base.{true, false, List, [], ◌∷◌, ◌≡◌, ◌⊎◌, inr, refl, arith}
use ice_coroutines.Terminal.Format.{Format}
use ice_coroutines.Terminal.Manager.{Stream, is_tty, Action, sets, resets, writes}
use ice_coroutines.Base.{false}
use ice_coroutines.Terminal.Manager as Posix
use ice_coroutines.Terminal.Manager.Laws.{styled, manager-clean}
use ice_coroutines.Terminal.Windows.{
  Foreground, Consoles, attributes, Manager, reset, manager_reset, manager_set, manager, act, live,
}

module _ (fg : Foreground) (c : Consoles) where
  -- A manager that has changed the attributes knows that it has to give them back.
  abbrev Inv : Manager → Type 0
  Inv m =
      (is_tty c.ttys m.stream ≡ true)
      × ((m.needs_reset ≡ true) ⊎ (m.attribute ≡ attributes c m.stream))

  manager_reset-clean :
      (m : Manager)
      → Inv m
      → ((manager_reset fg c m).attribute ≡ attributes c m.stream)
        × ((manager_reset fg c m).stream ≡ m.stream)
  unfolding manager_reset reset
  manager_reset-clean m i = ground arith

  manager_set-Inv :
      (m : Manager) (f : Format)
      → Inv m
      → Inv (manager_set fg c f m) × ((manager_set fg c f m).stream ≡ m.stream)
  unfolding manager_set
  manager_set-Inv m f i = let k = manager_reset-clean m i in ground (arith, k)

  act-Inv :
      (m : Manager) (a : Action) → Inv m → Inv (act fg c m a) × ((act fg c m a).stream ≡ m.stream)
  unfolding act
  act-Inv m (sets f) i = manager_set-Inv m f i
  act-Inv m resets i = let k = manager_reset-clean m i in ground (arith, k)
  act-Inv m (writes words) i = (i, refl)

  live-clean :
      (m : Manager) (acts : List Action)
      → Inv m
      → (live fg c m acts).attribute ≡ attributes c m.stream
  unfolding live
  live-clean m [] i = (manager_reset-clean m i).0
  live-clean m (a ∷ acts) i =
      let k = act-Inv m a i in let l = live-clean (act fg c m a) acts k.0 in ground (arith, k, l)

  console-clean :
      (stream : Stream) (f : Format) (acts : List Action)
      → is_tty c.ttys stream ≡ true
      → (live fg c (manager fg c stream f (attributes c stream)) acts).attribute
        ≡ attributes c stream
  unfolding manager
  console-clean stream f acts h =
      let m : Manager = record {
        stream = stream;
        needs_reset = false;
        attribute = attributes c stream;
      } in
      let k = manager_set-Inv m f (h, inr refl) in
      let l = live-clean (manager_set fg c f m) acts k.0 in ground (arith, k, l)

  -- Whatever formats are set on a terminal and whatever is written in between, once the manager is
  -- destroyed nothing is left of them: on a POSIX system no attribute is set, and a console of Windows
  -- that had the attributes of the start of the program has these again.
  terminal-clean :
      (stream : Stream) (f : Format) (acts : List Action)
      → is_tty c.ttys stream ≡ true
      → (styled false (Posix.live c.ttys (Posix.manager c.ttys stream f) acts).output ≡ false)
        × ((live fg c (manager fg c stream f (attributes c stream)) acts).attribute
            ≡ attributes c stream)
  terminal-clean stream f acts h =
      (manager-clean c.ttys stream f acts h, console-clean stream f acts h)
