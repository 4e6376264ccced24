-- ===== src/Net/Service/Laws.antt =====
-- What a round of the loop of `run` does.
use ice_coroutines.Base.{
  ℕ, Bool, true, false, ◌||◌, Option, none, some, List, [], ◌∷◌, goto, if◌then◌else◌, ◌≡◌, refl,
  arith,
}
use ice_coroutines.Net.Service.{Program, entries, Loop, Dispatch, dispatch, finish, run_step}

-- The events among the entries, and whether the `eventfd` is.
unfoldable pub pending : List (Option ℕ) → List ℕ
pending [] = []
pending (some ev ∷ es) = ev ∷ pending es
pending (none ∷ es) = pending es

unfoldable pub woken : List (Option ℕ) → Bool
woken [] = false
woken (some ev ∷ es) = woken es
woken (none ∷ es) = true

module _ {W : Type 0} (p : Program W) where
  -- The events resumed one after the other.
  unfoldable pub resume_all : List ℕ → W → W
  resume_all [] w = w
  resume_all (ev ∷ evs) w = resume_all evs (p.resume ev w)

  dispatch_lem :
      (es : List (Option ℕ)) (d : Dispatch W)
      → ((dispatch p es d).memory ≡ resume_all (pending es) d.memory)
        × ((dispatch p es d).interrupted ≡ (woken es || d.interrupted))
  unfolding dispatch pending woken resume_all
  dispatch_lem [] d = (refl, refl)
  dispatch_lem (some ev ∷ es) d = dispatch_lem es (record d { memory = p.resume ev d.memory })
  dispatch_lem (none ∷ es) d =
      let rest = dispatch_lem es (record d { interrupted = true; stop = p.stopped d.memory }) in
      (rest.0, ground (arith, rest.1))

  -- A round with some entries: `run` goes on, whatever `stop_` says, with every event resumed in the
  -- order of the entries, and behind them, once, the posted schedules if the service was woken.
  run_step-entries :
      (eintr : ℕ) (s : Loop W) (e : Option ℕ) (es : List (Option ℕ)) (others : W → W)
      → let resumed = resume_all (pending (e ∷ es)) (others s.memory) in
        (s' : Loop W) × (run_step p eintr s (entries (e ∷ es) others) ≡ goto s')
        × (s'.memory ≡ (if woken (e ∷ es) then p.process resumed else resumed))
  unfolding run_step finish
  run_step-entries eintr s e es others =
      let d : Dispatch W = record {
        interrupted = false;
        stop = s.stop;
        memory = others s.memory;
      } in
      let l = dispatch_lem (e ∷ es) d in
      (finish p (dispatch p (e ∷ es) d), refl, ground (arith, l.0, l.1))
