-- ===== src/Net/Service/Delivery/Laws.antt =====
-- Every schedule posted to a service is resumed, in order, and no interruption is lost.
use ice_coroutines.Base.{
  ℕ, Bool, true, false, some, List, [], ◌∷◌, ◌++◌, ◌⊎◌, inl, inr, Bool-cases, ◌≡◌, ◌≢◌, refl, ap,
  sym, subst, ◌∙◌, arith, post-Delivered, take-Delivered, resume-Delivered,
}
use ice_coroutines.Net.Service.{timeout}
use ice_coroutines.Net.Service.Delivery.{
  Running, polling, timed_out, notified, woken, returned, resuming, System, entered, idle, Step,
  post, set_stop, interrupt, interrupt_fails, poll_interrupt, load_stop, poll_timeout, poll_signal,
  test_stop, poll_fails, acquire, resume, finish, Trace, start, next,
}

-- The schedules that `process` has taken and not resumed yet.
unfoldable pub held : Running → List ℕ
held (resuming xs) = xs
held _ = []

abbrev Inv : System → Type 0
Inv m = m.resumed ++ (held m.running ++ m.queue) ≡ m.posted

held-idle : (b : Bool) → held (idle b) ≡ []
unfolding held idle
held-idle b = ground arith

-- The places change, and nothing is held before or after.
moved :
    (m : System) (before after : Running)
    → m.running ≡ before
    → held before ≡ held after
    → Inv m
    → Inv (record m { running = after })
moved m before after e h i = subst (λ l. m.resumed ++ (l ++ m.queue) ≡ m.posted) (ap held e ∙ h) i

step-Inv : (m n : System) → Step m n → Inv m → Inv n
unfolding held
step-Inv m n (post s) i = post-Delivered m.resumed (held m.running) m.queue m.posted s i
step-Inv m n (set_stop b) i = i
step-Inv m n (interrupt k e) i = i
step-Inv m n (interrupt_fails k e) i = i
step-Inv m n (poll_interrupt e a) i = moved m polling notified e refl i
step-Inv m n (load_stop e) i = moved m notified woken e refl i
step-Inv m n (poll_timeout k e a) i = moved m polling timed_out e refl i
step-Inv m n (poll_signal e) i = moved m polling timed_out e refl i
step-Inv m n (test_stop e) i =
    moved m timed_out (idle m.stop_flag) e (sym (held-idle m.stop_flag)) i
step-Inv m n (poll_fails e) i = moved m polling returned e refl i
step-Inv m n (acquire e) i =
    take-Delivered m.resumed m.queue m.posted (moved m woken woken e refl i)
step-Inv m n (resume x xs e) i =
    resume-Delivered m.resumed xs m.queue m.posted x
      (moved m (resuming (x ∷ xs)) (resuming (x ∷ xs)) e refl i)
step-Inv m n (finish e) i = moved m (resuming []) polling e refl i

trace-Inv : (m : System) → Trace entered m → Inv m
unfolding held
trace-Inv m start = refl
trace-Inv m (next {n} t s) = step-Inv n m s (trace-Inv n t)

-- In every interleaving of the thread in `run` with those that post, stop and interrupt, the
-- schedules resumed so far, those that `process` holds and those in the list are, in this order, the
-- schedules posted.
pub delivered-posted :
    (m : System) → Trace entered m → m.resumed ++ (held m.running ++ m.queue) ≡ m.posted
delivered-posted m t = trace-Inv m t

-- What keeps `run` going where there is something to do: the `eventfd` is armed or about to be, or
-- its entry has been seen.
unfoldable pub is_woken : Running → Bool
is_woken notified = true
is_woken woken = true
is_woken _ = false

unfoldable pub is_notified : Running → Bool
is_notified notified = true
is_notified _ = false

record Awake (m : System) : Type 0 where
  queued :
      m.refused ≡ false
      → m.armed ≡ false
      → m.notices ≡ 0
      → is_woken m.running ≡ false
      → m.queue ≡ []
  stopped :
      m.refused ≡ false
      → m.armed ≡ false
      → m.notices ≡ 0
      → is_notified m.running ≡ false
      → m.stop_flag ≡ true
      → m.stop ≡ true

step-Awake : (m n : System) → Step m n → Awake m → Awake n
unfolding is_woken is_notified idle
step-Awake m n (post s) a = record {
  queued = ground (arith, a.queued);
  stopped = ground (arith, a.stopped);
}
step-Awake m n (set_stop b) a = record {
  queued = ground (arith, a.queued);
  stopped = ground (arith, a.stopped);
}
step-Awake m n (interrupt k e) a = record {
  queued = ground (arith, a.queued);
  stopped = ground (arith, a.stopped);
}
step-Awake m n (interrupt_fails k e) a = record {
  queued = ground (arith, a.queued);
  stopped = ground (arith, a.stopped);
}
step-Awake m n (poll_interrupt e f) a = record {
  queued = ground (arith, a.queued);
  stopped = ground (arith, a.stopped);
}
step-Awake m n (load_stop e) a = record {
  queued = ground (arith, a.queued);
  stopped = ground (arith, a.stopped);
}
step-Awake m n (poll_timeout k e f) a = record {
  queued = ground (arith, a.queued);
  stopped = ground (arith, a.stopped);
}
step-Awake m n (poll_signal e) a = record {
  queued = ground (arith, a.queued);
  stopped = ground (arith, a.stopped);
}
step-Awake m n (test_stop e) a = record {
  queued = ground (arith, a.queued);
  stopped = ground (arith, a.stopped);
}
step-Awake m n (poll_fails e) a = record {
  queued = ground (arith, a.queued);
  stopped = ground (arith, a.stopped);
}
step-Awake m n (acquire e) a = record {
  queued = ground (arith, a.queued);
  stopped = ground (arith, a.stopped);
}
step-Awake m n (resume x xs e) a = record {
  queued = ground (arith, a.queued);
  stopped = ground (arith, a.stopped);
}
step-Awake m n (finish e) a = record {
  queued = ground (arith, a.queued);
  stopped = ground (arith, a.stopped);
}

trace-Awake : (m : System) → Trace entered m → Awake m
unfolding is_woken is_notified
trace-Awake m start = record { queued = ground arith; stopped = ground arith }
trace-Awake m (next {n} t s) = step-Awake n m s (trace-Awake n t)

module _ (m : System) (t : Trace entered m) (p : m.running ≡ polling) (n : m.notices ≡ 0)
    (r : m.refused ≡ false) where
  queued-armed : m.queue ≢ [] → m.armed ≡ true
  unfolding is_woken
  queued-armed q = elim (Bool-cases m.armed) [
    | inl e ↦ e
    | inr e ↦ absurd (q ((trace-Awake m t).queued r e n (ground arith)))
  ]

  stopped-armed : m.stop_flag ≡ true → (m.armed ≡ true) ⊎ (timeout m.stop ≡ some 1)
  unfolding is_notified
  stopped-armed s = elim (Bool-cases m.armed) [
    | inl e ↦ inl e
    | inr e ↦ inr (ground (arith, (trace-Awake m t).stopped))
  ]

  -- No wake-up and no stop is lost. Where the thread in `run` is at `epoll_wait`, and every call of
  -- `post` and `stop` has called `interrupt` without an error: with a schedule in the list the
  -- `eventfd` is armed, so that the wait ends with its entry; and after a stop was asked for it is
  -- armed or the wait has a timeout of 1.
  pub polling-armed :
      (m.queue ≢ [] → m.armed ≡ true)
      × (m.stop_flag ≡ true → (m.armed ≡ true) ⊎ (timeout m.stop ≡ some 1))
  polling-armed = (queued-armed, stopped-armed)
