-- ===== src/Net/Service/Windows/Laws.antt =====
-- A service on Windows resumes what is posted, and leaves nothing behind when it stops.
use ice_coroutines.Base.{
  ℕ, ◌+◌, Bool, true, false, List, [], ◌∷◌, ◌++◌, ◌≡◌, ◌≢◌, refl, ap, sym, append-nil,
  if◌then◌else◌, subst, ◌∙◌, arith, post-Delivered, take-Delivered, resume-Delivered,
}
use ice_coroutines.Error.{is_error}
use ice_coroutines.Net.Service.{Service}
use ice_coroutines.Net.Service.Ownership.{holds, accounted}
use ice_coroutines.Net.Service.Windows.{
  mismatch, wsa_ec, Calls, create, Running, polling, dispatching, woken, returned, resuming, System,
  entered, Step, post, set_stop, interrupts, interrupt_fails, dequeue, load_stop, time_out, fail,
  acquire, resume, finish_process, Trace, start, next,
}

-- The handle that a run of `create` opens.
unfoldable pub opened : ℕ → Calls → ℕ
opened h c = if is_error (wsa_ec c.startup) then 0 else holds h c.created

-- `create` keeps account of every handle: the one that it opens and those that the service had are
-- afterwards members of the service or closed, once.
pub create-accounted :
    (c : Calls) (s : Service) (h : ℕ) → accounted h (create c s).1 ≡ accounted h s + opened h c
unfolding create opened accounted
create-accounted c s h = ground arith

-- Where `WSAStartup` fails and leaves no version, the service stays as it was, and the error is that of
-- a version that is too old, whatever `WSAStartup` returned.
pub create-startup :
    (c : Calls) (s : Service) → c.startup.rc ≢ 0 → c.startup.major ≡ 0 → create c s ≡ (mismatch, s)
unfolding create wsa_ec
create-startup c s failed none_read = ground arith

-- The schedules that `process` has taken and not resumed yet.
unfoldable pub held : Running → List ℕ
held (resuming xs) = xs
held _ = []

abbrev Inv : System → Type 0
Inv m = m.resumed ++ (held m.running ++ m.queue) ≡ m.posted

-- The places change, and nothing is held before or after.
moved :
    (m : System) (before after : Running)
    → m.running ≡ before
    → held before ≡ held after
    → Inv m
    → Inv (record m { running = after })
moved m before after e h i = subst (λ l. m.resumed ++ (l ++ m.queue) ≡ m.posted) (ap held e ∙ h) i

step-Inv : (m n : System) → Step m n → Inv m → Inv n
unfolding held
step-Inv m n (post s) i = post-Delivered m.resumed (held m.running) m.queue m.posted s i
step-Inv m n (set_stop b) i = i
step-Inv m n (interrupts k e) i = i
step-Inv m n (interrupt_fails k e) i = i
step-Inv m n (dequeue k l e p) i = moved m polling dispatching e refl i
step-Inv m n (load_stop e) i = moved m dispatching woken e refl i
step-Inv m n (time_out e s p) i = moved m polling returned e refl i
step-Inv m n (fail e) i = moved m polling returned e refl i
step-Inv m n (acquire e) i =
    take-Delivered m.resumed m.queue m.posted (moved m woken woken e refl i)
step-Inv m n (resume x xs e) i =
    resume-Delivered m.resumed xs m.queue m.posted x
      (moved m (resuming (x ∷ xs)) (resuming (x ∷ xs)) e refl i)
step-Inv m n (finish_process e) i = moved m (resuming []) polling e refl i

trace-Inv : (m : System) → Trace entered m → Inv m
unfolding held
trace-Inv m start = refl
trace-Inv m (next {n} t s) = step-Inv n m s (trace-Inv n t)

-- Whether `run` is on its way to `process`, or has left.
unfoldable pub going : Running → Bool
going dispatching = true
going woken = true
going returned = true
going _ = false

-- Where the thread waits with no packet in the port and none on its way, the list is empty.
abbrev Awake : System → Type 0
Awake m = m.refused ≡ false → m.packets ≡ 0 → m.notices ≡ 0 → going m.running ≡ false → m.queue ≡ []

step-Awake : (m n : System) → Step m n → Awake m → Awake n
unfolding going
step-Awake m n (post s) a = ground arith
step-Awake m n (set_stop b) a = ground arith
step-Awake m n (interrupts k e) a = ground arith
step-Awake m n (interrupt_fails k e) a = ground arith
step-Awake m n (dequeue k l e p) a = ground arith
step-Awake m n (load_stop e) a = ground arith
step-Awake m n (time_out e s p) a = ground arith
step-Awake m n (fail e) a = ground arith
step-Awake m n (acquire e) a = ground arith
step-Awake m n (resume x xs e) a = ground arith
step-Awake m n (finish_process e) a = ground arith

trace-Awake : (m : System) → Trace entered m → Awake m
unfolding going
trace-Awake m start = ground arith
trace-Awake m (next {n} t s) = step-Awake n m s (trace-Awake n t)

-- In every interleaving on Windows, the schedules resumed, those that `process` holds and those in the
-- list are, in this order, the schedules posted; and where the thread waits with no packet in the
-- port, as where a stop lets the wait time out, and every call of `post` and `stop` has called
-- `interrupt` without an error, all that was posted has been resumed.
pub windows-delivers :
    (m : System)
    → Trace entered m
    → (m.resumed ++ (held m.running ++ m.queue) ≡ m.posted)
      × (m.running ≡ polling
          → m.packets ≡ 0
          → m.notices ≡ 0
          → m.refused ≡ false
          → m.resumed ≡ m.posted)
unfolding held going
windows-delivers m t = (
  trace-Inv m t,
  λ p k n r.
      sym (append-nil m.resumed)
      ∙ ap (λ l. m.resumed ++ l) (sym (trace-Awake m t r k n (ap going p)))
      ∙ moved m polling polling p refl (trace-Inv m t),
)
