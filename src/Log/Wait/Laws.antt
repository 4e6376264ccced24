-- ===== src/Log/Wait/Laws.antt =====
-- How a call at the limit ends.
use ice_coroutines.Base.{Bool, true, false, ◌≡◌, ◌≢◌, ◌⊎◌, inl, inr, refl, sym, ap, ◌∙◌, arith}
use ice_coroutines.Log.Wait.{
  Caller, testing, willing, blocked, returned, Logger, queued, printed, stored, notified, System,
  posted, wake, test, has_returned, Step, predicate, wait, print, store, notify_one, Trace, start,
  next, spurious,
}

-- `completed` is set exactly behind `completed.store`.
unfoldable pub stores : Logger → Bool
stores queued = false
stores printed = false
stores stored = true
stores notified = true

record Inv (m : System) : Type 0 where
  set : m.completed ≡ stores m.logger
  returns : m.caller ≡ returned → m.completed ≡ true

step-Inv : (m n : System) → Step m n → Inv m → Inv n
unfolding stores wake test
step-Inv m n (predicate h) i = ground arith
step-Inv m n (wait h) i = ground arith
step-Inv m n (print h) i = ground arith
step-Inv m n (store h) i = ground arith
step-Inv m n (notify_one h) i = ground arith

trace-Inv : (m : System) → Trace posted m → Inv m
unfolding stores wake
trace-Inv m start = ground arith
trace-Inv m (next {n} t s) = step-Inv n m s (trace-Inv n t)
trace-Inv m (spurious {n} t) = let i = trace-Inv n t in ground arith

-- No step is left, but for a wake-up without a reason.
abbrev IsStuck : System → Type 0
IsStuck m = (n : System) → Step m n → ⊥

stuck-logger : (m : System) (l : Logger) → m.logger ≡ l → IsStuck m → m.logger ≡ notified
stuck-logger m queued e s = absurd (s _ (print e))
stuck-logger m printed e s = absurd (s _ (store e))
stuck-logger m stored e s = absurd (s _ (notify_one e))
stuck-logger m notified e s = e

stuck-caller :
    (m : System) (c : Caller)
    → m.caller ≡ c
    → IsStuck m
    → (m.caller ≡ returned) ⊎ (m.caller ≡ blocked)
stuck-caller m testing e s = absurd (s _ (predicate e))
stuck-caller m willing e s = absurd (s _ (wait e))
stuck-caller m blocked e s = inr e
stuck-caller m returned e s = inl e

-- Once a call at the limit has returned, its entry has been printed and `completed` set. Where no
-- step is left, the logger is through, and the call has returned or is blocked.
pub queue-ends :
    (m : System)
    → Trace posted m
    → (m.caller ≡ returned → stores m.logger ≡ true)
      × (IsStuck m → (m.logger ≡ notified) × ((m.caller ≡ returned) ⊎ (m.caller ≡ blocked)))
queue-ends m t =
    let i = trace-Inv m t in
    (
      λ r. sym i.set ∙ i.returns r,
      λ s. (stuck-logger m m.logger refl s, stuck-caller m m.caller refl s),
    )

-- On a history in which the logger does not get to the coroutine the call does not return: so not where the
-- call is made on the thread of the logger, by a sink.
own_thread : (m : System) → Trace posted m → m.logger ≡ queued → m.caller ≢ returned
unfolding stores
own_thread m t q r = ground (arith, (queue-ends m t).0 r, q)

-- A call that is blocked when the logger is through.
record IsLost (m : System) : Type 0 where
  blocked_there : m.caller ≡ blocked
  through : m.logger ≡ notified

IsLost-stuck : (m n : System) → IsLost m → Step m n → ⊥
IsLost-stuck m n l (predicate h) = ground arith
IsLost-stuck m n l (wait h) = ground arith
IsLost-stuck m n l (print h) = ground arith
IsLost-stuck m n l (store h) = ground arith
IsLost-stuck m n l (notify_one h) = ground arith

-- The rest of the logger's steps beside a call that is about to wait.
notify-willing :
    (m : System) (l : Logger)
    → m.logger ≡ l
    → m.caller ≡ willing
    → (n : System) × Trace m n × (n.logger ≡ notified) × (n.caller ≡ willing)
unfolding wake
notify-willing m queued e w =
    (_, next (next (next start (print e)) (store refl)) (notify_one refl), refl, ap wake w)
notify-willing m printed e w = (_, next (next start (store e)) (notify_one refl), refl, ap wake w)
notify-willing m stored e w = (_, next start (notify_one e), refl, ap wake w)
notify-willing m notified e w = (m, start, e, w)

-- From wherever a call has found its predicate false, there are steps after which it is blocked, the
-- logger is through, and no step but a wake-up without a reason is left: it hangs.
willing-IsLost : (m : System) → m.caller ≡ willing → (n : System) × Trace m n × IsLost n × IsStuck n
willing-IsLost m w =
    let (n, t, l, c) = notify-willing m m.logger refl w in
    let lost : IsLost (record n { caller = blocked }) = record {
      blocked_there = refl;
      through = l;
    } in
    (record n { caller = blocked }, next t (wait c), lost, λ o s. IsLost-stuck _ o lost s)

-- The logger between its two last steps, beside a call that stands where it stood.
store-any :
    (m : System) (l : Logger)
    → m.logger ≡ l
    → m.logger ≢ notified
    → Inv m
    → (n : System) × Trace m n × (n.logger ≡ stored) × (n.completed ≡ true)
unfolding stores
store-any m queued e w i = (_, next (next start (print e)) (store refl), refl, refl)
store-any m printed e w i = (_, next start (store e), refl, refl)
store-any m stored e w i = (m, start, e, i.set ∙ ap stores e)
store-any m notified e w i = absurd (w e)

-- A call may return before the logger notifies.
return-any :
    {m : System} (n : System) (c : Caller)
    → n.caller ≡ c
    → Trace m n
    → n.completed ≡ true
    → n.logger ≡ stored
    → (o : System) × Trace m o × (o.logger ≡ stored) × (o.caller ≡ returned)
unfolding wake test
return-any n testing e t d l = (_, next t (predicate e), l, ap test d)
return-any n willing e t d l = (_, next (spurious (next t (wait e))) (predicate refl), l, ap test d)
return-any n blocked e t d l = (_, next (spurious t) (predicate (ap wake e)), l, ap test d)
return-any n returned e t d l = (n, t, l, e)

-- From wherever the logger has not called `notify_one` yet, there are steps on which the call returns
-- first, so that the logger then notifies a `cv` that is gone.
pub notify_one-dangling :
    (m : System)
    → Trace posted m
    → m.logger ≢ notified
    → (n : System) × Trace m n × (n.logger ≡ notified) × (n.caller ≡ returned) × (n.dangling ≡ true)
unfolding wake has_returned
notify_one-dangling m t w =
    let (n, t', l, d) = store-any m m.logger refl w (trace-Inv m t) in
    let (o, t'', l', r) = return-any n n.caller refl t' d l in
    (_, next t'' (notify_one l'), refl, ap wake r, ground arith)
