-- ===== src/Scheduler/Fifo.antt =====
-- The scheduler is a queue, whatever the interleaving of the threads.
use ice_coroutines.Base.{ℕ, Option, none, some, List, [], ◌∷◌, ◌++◌, ◌≡◌, refl, ◌∙◌, sym}
use ice_coroutines.Scheduler.{
  Links, update, System, Event, quiet, posts, takes, resumes, load, store, exchange, retry, take,
  resume, Trace, stop, more, idle,
}
use ice_coroutines.Scheduler.Chain.{Chain}
use ice_coroutines.Scheduler.Steps.{Inv, quiet-Inv, store-Inv, exchange-Inv, take-Inv, resume-Inv}

-- The reference: a queue of schedules with those that each thread has taken from it, and what each
-- event does to them. A take is one of the whole queue, once all that the thread took before have been
-- resumed; the schedule resumed is the first of those that the thread has taken.
abbrev pub Accepts : List ℕ → (ℕ → List ℕ) → List Event → Type 0
Accepts q h [] = Unit
Accepts q h (quiet ∷ es) = Accepts q h es
Accepts q h (posts s ∷ es) = Accepts (q ++ s ∷ []) h es
Accepts q h (takes t ∷ es) = (h t ≡ []) × Accepts [] (update h t q) es
Accepts q h (resumes t x ∷ es) = (rest : List ℕ) × (h t ≡ x ∷ rest) × Accepts q (update h t rest) es

-- A loop that has ended holds nothing, and one that has not is at the first that it holds.
ended : (next : Links) (p : Option ℕ) (h : List ℕ) → p ≡ none → Chain next p h → h ≡ []
ended next p [] e c = refl
ended next p (x ∷ h) e c = cc (sym e ∙ c.0)

running :
    (next : Links) (p : Option ℕ) (s : ℕ) (h : List ℕ)
    → p ≡ some s
    → Chain next p h
    → (rest : List ℕ) × (h ≡ s ∷ rest)
running next p s [] e c = cc (sym c ∙ e)
running next p s (x ∷ h) e c = (h, cc (sym e ∙ c.0))

trace-Accepts :
    {m n : System} {es : List Event} (q : List ℕ) (h : ℕ → List ℕ)
    → Trace m es n
    → Inv m q h
    → Accepts q h es
trace-Accepts q h stop i = tt
trace-Accepts {m} q h (more (load s e) t) i =
    trace-Accepts q h t (quiet-Inv m q h s _ (λ w. cc (sym e ∙ w)) (λ p k. cc) i)
trace-Accepts {m} q h (more (store s p e) t) i = trace-Accepts q h t (store-Inv m q h s p e i)
trace-Accepts {m} q h (more (exchange s p e k) t) i =
    trace-Accepts (q ++ s ∷ []) h t (exchange-Inv m q h s p e k i)
trace-Accepts {m} q h (more (retry s p e) t) i =
    trace-Accepts q h t (quiet-Inv m q h s _ (λ w. cc (sym e ∙ w)) (λ g k. cc) i)
trace-Accepts {m} q h (more (take u fuel next first e a) t) i = (
  ended m.next (m.cursor u) (h u) e (i.taken u),
  trace-Accepts [] (update h u q) t (take-Inv m q h u fuel next first a i),
)
trace-Accepts {m} q h (more (resume u s e) t) i =
    let (rest, d) = running m.next (m.cursor u) s (h u) e (i.taken u) in
    (rest, d, trace-Accepts q (update h u rest) t (resume-Inv m q h u s rest d i))

-- From an idle scheduler, in every interleaving of the atomic steps of any number of posting
-- threads with those of any number of threads in `process`, each take is one of exactly the schedules
-- whose exchange has succeeded since the last one, by whatever thread, and before the next take of that
-- thread it resumes these, each once and in the order of those exchanges, whatever is posted, taken and
-- resumed by others meanwhile, a schedule just resumed too.
pub idle-Accepts : {m : System} {es : List Event} → Trace idle es m → Accepts [] (λ _. []) es
idle-Accepts t =
    trace-Accepts [] (λ _. []) t
      (record {
        stack = [];
        order = refl;
        chain = refl;
        taken = λ t. refl;
        distinct = tt;
        distinct_taken = λ t. tt;
        owner = λ s. none;
        unowned = tt;
        owned = λ t. tt;
        waits = tt;
        waits_taken = λ t. tt;
        links = λ s h e. cc;
      })
