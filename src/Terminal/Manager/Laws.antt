-- ===== src/Terminal/Manager/Laws.antt =====
-- A manager leaves its stream with no attribute set.
use ice_coroutines.Base.{Bool, true, false, List, [], ◌∷◌, ◌++◌, ◌≡◌, refl, arith}
use ice_coroutines.Terminal.Format.{Format}
use ice_coroutines.Terminal.Manager.{
  Stream, Piece, attribute, clear, text, Ttys, is_tty, Manager, manager_reset, manager_set, manager,
  Action, sets, resets, writes, act, live,
}

-- Whether a terminal has an attribute set, from whether it had one before the output.
unfoldable pub styled : Bool → List Piece → Bool
styled b [] = b
styled b (attribute _ ∷ ps) = styled true ps
styled b (clear ∷ ps) = styled false ps
styled b (text _ ∷ ps) = styled b ps

pub styled-append : (b : Bool) (xs ys : List Piece) → styled b (xs ++ ys) ≡ styled (styled b xs) ys
unfolding styled
styled-append b [] ys = refl
styled-append b (attribute _ ∷ xs) ys = styled-append true xs ys
styled-append b (clear ∷ xs) ys = styled-append false xs ys
styled-append b (text _ ∷ xs) ys = styled-append b xs ys

module _ (t : Ttys) where
  -- A manager of a terminal that has set an attribute knows that it has to clear it.
  abbrev Inv : Manager → Type 0
  Inv m = (is_tty t m.stream ≡ true) × (styled false m.output ≡ true → m.needs_reset ≡ true)

  manager_reset-clean :
      (m : Manager)
      → Inv m
      → (styled false (manager_reset t m).output ≡ false)
        × (is_tty t (manager_reset t m).stream ≡ true)
  unfolding manager_reset styled
  manager_reset-clean m i = ground (arith, styled-append false m.output (clear ∷ []))

  manager_set-Inv : (m : Manager) (f : Format) → Inv m → Inv (manager_set t f m)
  unfolding manager_set
  manager_set-Inv m f i = let c = manager_reset-clean m i in ground (arith, c)

  act-Inv : (m : Manager) (a : Action) → Inv m → Inv (act t m a)
  unfolding act styled
  act-Inv m (sets f) i = manager_set-Inv m f i
  act-Inv m resets i = ground (arith, manager_reset-clean m i)
  act-Inv m (writes words) i = ground (arith, styled-append false m.output (text words ∷ []))

  live-clean :
      (m : Manager) (acts : List Action) → Inv m → styled false (live t m acts).output ≡ false
  unfolding live
  live-clean m [] i = (manager_reset-clean m i).0
  live-clean m (a ∷ acts) i = live-clean (act t m a) acts (act-Inv m a i)

  -- Whatever formats are set on a terminal and whatever is written in between, once the manager is
  -- destroyed no attribute is left.
  pub manager-clean :
      (stream : Stream) (f : Format) (acts : List Action)
      → is_tty t stream ≡ true
      → styled false (live t (manager t stream f) acts).output ≡ false
  unfolding manager styled
  manager-clean stream f acts h = live-clean (manager t stream f) acts (
      manager_set-Inv (record { stream = stream; needs_reset = false; output = [] }) f (h, λ e. cc))
