-- ===== src/Net/Event.antt =====
-- The Windows `event` of src/ice/include/ice/net/event.hpp: the coroutine suspends on one thread
-- while the completion may arrive on another. Each of the two stores and each `exchange` is a step;
-- `resume` is called once for an event.
pub mod Registry
use ice_coroutines.Base.{ℕ, Bool, true, false, Option, none, some, List, [], ◌∷◌, ◌≡◌, refl, arith}

-- `await_suspend`: before `awaiter_ = awaiter`, before the exchange, before `awaiter_.resume()`, and
-- behind it all.
pub data Suspending : Type 0 where
  entered stored must_resume suspended : Suspending

-- `resume`: before the exchange, before `awaiter_.resume()`, and behind it all.
pub data Resuming : Type 0 where
  pending must_resume finished : Resuming

pub record Event : Type 0 where
  pub ready : Bool
  pub awaiter : Option ℕ
  pub suspending : Suspending
  pub resuming : Resuming
  -- What `awaiter_.resume()` has been called for.
  pub resumed : List (Option ℕ)

-- `event()` with a coroutine about to await it.
abbrev pub initial : Event
initial = record {
  ready = false;
  awaiter = none;
  suspending = entered;
  resuming = pending;
  resumed = [];
}

-- Where the exchange leads: the thread that finds `true` resumes.
abbrev after_suspend : Bool → Suspending
after_suspend true = Suspending.must_resume
after_suspend false = suspended

abbrev after_resume : Bool → Resuming
after_resume true = Resuming.must_resume
after_resume false = finished

pub data Step (a : ℕ) (e : Event) : Event → Type 0 where
  store : e.suspending ≡ entered → Step a e (record e { awaiter = some a; suspending = stored })
  exchange_suspend :
      e.suspending ≡ stored
      → Step a e (record e { ready = true; suspending = after_suspend e.ready })
  resume_suspend :
      e.suspending ≡ Suspending.must_resume
      → Step a e (record e { suspending = suspended; resumed = e.awaiter ∷ e.resumed })
  exchange_resume :
      e.resuming ≡ pending → Step a e (record e { ready = true; resuming = after_resume e.ready })
  resume_resume :
      e.resuming ≡ Resuming.must_resume
      → Step a e (record e { resuming = finished; resumed = e.awaiter ∷ e.resumed })

pub data Trace (a : ℕ) (e : Event) : Event → Type 0 where
  start : Trace a e e
  next : {f g : Event} → Trace a e f → Step a f g → Trace a e g

-- What is to be resumed, by the two places: the coroutine once both are through.
abbrev pub due : ℕ → Suspending → Resuming → List (Option ℕ)
due a suspended finished = some a ∷ []
due a _ _ = []

-- The places that go together, with the flag and the coroutine that they come with.
Inv : ℕ → Event → Type 0
Inv a e =
    (e.resumed ≡ due a e.suspending e.resuming) × Places a e.suspending e.resuming e.ready e.awaiter
  where
    Places : ℕ → Suspending → Resuming → Bool → Option ℕ → Type 0
    Places a entered pending r w = r ≡ false
    Places a entered finished r w = r ≡ true
    Places a stored pending r w = (r ≡ false) × (w ≡ some a)
    Places a stored finished r w = (r ≡ true) × (w ≡ some a)
    Places a Suspending.must_resume finished r w = (r ≡ true) × (w ≡ some a)
    Places a suspended _ r w = (r ≡ true) × (w ≡ some a)
    Places a _ _ r w = ⊥

step-Inv : (a : ℕ) (e f : Event) → Step a e f → Inv a e → Inv a f
unfolding Inv
step-Inv a e f (store h) i = ground arith
step-Inv a e f (exchange_suspend h) i = ground arith
step-Inv a e f (resume_suspend h) i = ground arith
step-Inv a e f (exchange_resume h) i = ground arith
step-Inv a e f (resume_resume h) i = ground arith

trace-Inv : (a : ℕ) (e : Event) → Trace a initial e → Inv a e
unfolding Inv
trace-Inv a e start = (refl, refl)
trace-Inv a e (next {f} t s) = step-Inv a f e s (trace-Inv a f t)

-- Whatever the interleaving of the thread that suspends and of the one that resumes, the coroutine
-- that awaits the event is resumed exactly once, by the later of the two: nothing is resumed until
-- both are through, and then it has been resumed once and nothing else has.
pub resumed-once :
    (a : ℕ) (e : Event) → Trace a initial e → e.resumed ≡ due a e.suspending e.resuming
unfolding Inv
resumed-once a e t = (trace-Inv a e t).0
