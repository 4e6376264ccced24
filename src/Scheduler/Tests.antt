-- ===== src/Scheduler/Tests.antt =====
-- Two threads post, the second between the steps of the first, and one take gets both; the first of
-- them is posted again, and taken by another thread, while the second has still to be resumed.
use ice_coroutines.Base.{none, some, List, [], ◌∷◌, refl, arith}
use ice_coroutines.Scheduler.{
  Links, update, acquire, Event, quiet, posts, takes, resumes, Trace, stop, more, load, store,
  exchange, retry, take, resume, idle, System,
}
use ice_coroutines.Scheduler.Acquire.{Turned, acquire-Turned}
use ice_coroutines.Scheduler.Fifo.{Accepts, idle-Accepts}

abbrev events : List Event
events =
    quiet
    ∷ quiet
    ∷ quiet
    ∷ quiet
    ∷ posts 2
    ∷ quiet
    ∷ quiet
    ∷ posts 1
    ∷ takes 0
    ∷ resumes 0 2
    ∷ quiet
    ∷ quiet
    ∷ posts 2
    ∷ takes 1
    ∷ resumes 1 2
    ∷ resumes 0 1
    ∷ []

abbrev two_links : Links
two_links = update (update (λ _. none) 1 (some 2)) 2 none

interleaving : (m : System) × Trace idle events m
unfolding acquire
interleaving = (
  _,
  more (load 1 refl) (
      more (store 1 none refl) (
        more (load 2 refl) (
          more (store 2 none refl) (
            more (exchange 2 none refl refl) (
              more (retry 1 none refl) (
                more (store 1 (some 2) refl) (
                  more (exchange 1 (some 2) refl refl) (
                    more (take 0 2 _ _ refl refl) (
                      more (resume 0 2 refl) (
                        more (load 2 refl) (
                          more (store 2 none refl) (
                            more (exchange 2 none refl refl) (
                              more (take 1 1 _ _ refl refl)
                                (more (resume 1 2 refl) (more (resume 0 1 refl) stop))))))))))))))),
)

idle-Accepts_example : Accepts [] (λ _. []) events
idle-Accepts_example = idle-Accepts interleaving.1

acquire-Turned_example : Turned two_links (1 ∷ 2 ∷ []) (2 ∷ 1 ∷ []) (acquire 2 two_links (some 1))
acquire-Turned_example =
    acquire-Turned 2 two_links (some 1) (1 ∷ 2 ∷ []) (refl, (refl, refl))
      ((ground arith, tt), (tt, tt)) (ground arith)
