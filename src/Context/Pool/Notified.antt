-- ===== src/Context/Pool/Notified.antt =====
-- src/ice/include/ice/context.hpp with several threads in `run`, where no notification comes while one
-- is behind the `acquire` of its predicate and before its wait.
use ice_coroutines.Base.{
  ℕ, Bool, true, false, ◌||◌, List, [], ◌∷◌, ◌++◌, map, ◌≡◌, ◌≢◌, ◌⊎◌, inl, inr, refl, ap, arith,
}
use ice_coroutines.Context.Pool.{
  Place, locking, checking, predicate, deciding, willing, blocked, woken, resuming, Pool, entered,
  is_blocked, any, acquired, check, decide, wake, Step, post, set_stop, notify_one, notify_none,
  notify_all, spurious, lock, check_stop, relock, acquire_again, decide_stop, wait, resume, finish,
  Trace, start, next,
}

-- A thread that calls `acquire` before it waits or returns.
unfoldable pub eager : Place → Bool
eager locking = true
eager woken = true
eager predicate = true
eager (resuming xs) = true
eager _ = false

-- A thread between the `acquire` of its predicate and its wait.
unfoldable pub deaf : Place → Bool
deaf deciding = true
deaf willing = true
deaf _ = false

-- A thread behind the `acquire` of its predicate that has not returned, and one of these whose predicate
-- was false.
unfoldable pub idle : Place → Bool
idle deciding = true
idle willing = true
idle blocked = true
idle _ = false

unfoldable pub waiting : Place → Bool
waiting willing = true
waiting blocked = true
waiting _ = false

any-at :
    (f : Place → Bool) (before after : List Place) (p : Place)
    → any f (before ++ p ∷ after) ≡ (any f before || (f p || any f after))
unfolding any
any-at f [] after p = refl
any-at f (q ∷ before) after p = ground (arith, any-at f before after p)

any-there :
    (f : Place → Bool) (before after : List Place) (p : Place)
    → f p ≡ true
    → any f (before ++ p ∷ after) ≡ true
any-there f before after p h = ground (arith, any-at f before after p)

eager-wake : (ps : List Place) → any eager ps ≡ true → any eager (map wake ps) ≡ true
unfolding any wake eager
eager-wake [] h = h
eager-wake (p ∷ ps) h = ground (arith, eager-wake ps)

idle-wake : (ps : List Place) → any idle ps ≡ false → any idle (map wake ps) ≡ false
unfolding any wake idle
idle-wake [] h = h
idle-wake (p ∷ ps) h = ground (arith, idle-wake ps)

waiting-wake : (ps : List Place) → any deaf ps ≡ false → any waiting (map wake ps) ≡ false
unfolding any wake deaf waiting
waiting-wake [] h = h
waiting-wake (p ∷ ps) h = ground (arith, waiting-wake ps)

idle-none :
    (ps : List Place) → any is_blocked ps ≡ false → any deaf ps ≡ false → any idle ps ≡ false
unfolding any is_blocked deaf idle
idle-none [] b d = refl
idle-none (p ∷ ps) b d = ground (arith, idle-none ps)

waiting-some :
    (ps : List Place) → any is_blocked ps ≡ true → (any idle ps ≡ true) × (any waiting ps ≡ true)
unfolding any is_blocked idle waiting
waiting-some [] b = ground arith
waiting-some (p ∷ ps) b = ground (arith, waiting-some ps)

-- No step of the history notifies nobody, or everybody, while a thread is behind the `acquire` of its
-- predicate and before its wait.
unfoldable pub Waits : {m n : Pool} → Trace m n → Type 0
Waits start = Unit
Waits (next {n} t (notify_none k e h)) = (any deaf n.threads ≡ false) × Waits t
Waits (next {n} t (notify_all k e)) = (any deaf n.threads ≡ false) × Waits t
Waits (next t _) = Waits t

-- What the threads may leave in the list, and what they may do in spite of a request to stop.
abbrev Armed : Pool → Type 0
Armed m =
    ((m.queue ≡ [])
      ⊎ ((m.posts ≢ 0) ⊎ ((any eager m.threads ≡ true) ⊎ (any idle m.threads ≡ false))))
    × (m.stop ≡ true → m.stops ≡ 0 → any waiting m.threads ≡ false)

-- A thread changes its place.
module _ (ps before after : List Place) (p p' : Place) (e : ps ≡ before ++ p ∷ after) where
  stays :
      (eager p' ≡ true) ⊎ ((eager p ≡ false) × ((idle p' ≡ false) ⊎ (idle p ≡ true)))
      → (any eager ps ≡ true) ⊎ (any idle ps ≡ false)
      → (any eager (before ++ p' ∷ after) ≡ true) ⊎ (any idle (before ++ p' ∷ after) ≡ false)
  stays c h = ground (
    arith,
    ap (any eager) e,
    any-at eager before after p,
    any-at eager before after p',
    ap (any idle) e,
    any-at idle before after p,
    any-at idle before after p',
  )

  quiet :
      (waiting p' ≡ false) ⊎ (waiting p ≡ true)
      → any waiting ps ≡ false
      → any waiting (before ++ p' ∷ after) ≡ false
  quiet c h =
      ground
        (arith, ap (any waiting) e, any-at waiting before after p, any-at waiting before after p')

-- A thread changes its place and nothing else changes.
Armed-moved :
    (m : Pool) (before after : List Place) (p p' : Place)
    → m.threads ≡ before ++ p ∷ after
    → (eager p' ≡ true) ⊎ ((eager p ≡ false) × ((idle p' ≡ false) ⊎ (idle p ≡ true)))
    → (waiting p' ≡ false) ⊎ (waiting p ≡ true)
    → Armed m
    → Armed (record m { threads = before ++ p' ∷ after })
Armed-moved m before after p p' e c w a = (
  ground (arith, stays m.threads before after p p' e c),
  λ s z. quiet m.threads before after p p' e w (a.1 s z),
)

waiting-acquired : (q : List ℕ) (p : Place) → waiting p ≡ false → waiting (acquired q p) ≡ false
unfolding acquired waiting
waiting-acquired [] p h = h
waiting-acquired (x ∷ q) p h = refl

step-Armed : (c m n : Pool) (t : Trace c m) (s : Step m n) → Waits (next t s) → Armed m → Armed n
unfolding Waits eager idle waiting check decide
step-Armed c m n t (post s) w a = (inr (inl (ground arith)), a.1)
step-Armed c m n t (set_stop b) w a = (a.0, λ s z. ground arith)
step-Armed c m n t (notify_one k before after e h) w a = (
  inr (inr (inl (any-there eager before after woken refl))),
  λ s z. quiet m.threads before after blocked woken h (inl refl) (a.1 s z),
)
step-Armed c m n t (notify_none k e h) w a = (inr (inr (inr (idle-none m.threads h w.0))), a.1)
step-Armed c m n t (notify_all k e) w a =
    (ground (arith, eager-wake m.threads, idle-wake m.threads), λ s z. waiting-wake m.threads w.0)
step-Armed c m n t (spurious before after h) w a =
    Armed-moved m before after blocked woken h (inl refl) (inl refl) a
step-Armed c m n t (lock before after h f) w a = (
  inl refl,
  λ s z.
      quiet m.threads before after locking (acquired m.queue checking) h
        (inl (waiting-acquired m.queue checking refl)) (a.1 s z),
)
step-Armed c m n t (check_stop before after h) w a =
    Armed-moved m before after checking (check m.stop) h (ground arith) (ground arith) a
step-Armed c m n t (relock before after h f) w a =
    Armed-moved m before after woken predicate h (inl refl) (inl refl) a
step-Armed c m n t (acquire_again before after h) w a = (
  inl refl,
  λ s z.
      quiet m.threads before after predicate (acquired m.queue deciding) h
        (inl (waiting-acquired m.queue deciding refl)) (a.1 s z),
)
step-Armed c m n t (decide_stop before after h) w a = (
  ground
      (arith, stays m.threads before after deciding (decide m.stop) h (inr (refl, inr refl)), a.0),
  λ s z.
      quiet m.threads before after deciding (decide m.stop) h (inl (ap (λ b. waiting (decide b)) s))
        (a.1 s z),
)
step-Armed c m n t (wait before after h) w a =
    Armed-moved m before after willing blocked h (inr (refl, inr refl)) (inr refl) a
step-Armed c m n t (resume before after x xs h) w a =
    Armed-moved m before after (resuming (x ∷ xs)) (resuming xs) h (inl refl) (inl refl) a
step-Armed c m n t (finish before after h) w a =
    Armed-moved m before after (resuming []) locking h (inl refl) (inl refl) a

earlier : {c m n : Pool} (t : Trace c m) (s : Step m n) → Waits (next t s) → Waits t
unfolding Waits
earlier t (notify_none k e h) w = w.1
earlier t (notify_all k e) w = w.1
earlier t (post s) w = w
earlier t (set_stop b) w = w
earlier t (notify_one k before after e h) w = w
earlier t (spurious before after h) w = w
earlier t (lock before after h f) w = w
earlier t (check_stop before after h) w = w
earlier t (relock before after h f) w = w
earlier t (acquire_again before after h) w = w
earlier t (decide_stop before after h) w = w
earlier t (wait before after h) w = w
earlier t (resume before after x xs h) w = w
earlier t (finish before after h) w = w

trace-Armed : (threads : ℕ) (m : Pool) (t : Trace (entered threads) m) → Waits t → Armed m
trace-Armed threads m start w = (inl refl, λ s z. ground arith)
trace-Armed threads m (next {n} t s) w =
    step-Armed (entered threads) n m t s w (trace-Armed threads n t (earlier t s w))

-- Where no `notify_all`, and no `notify_one` that finds nobody blocked, comes while a thread is
-- behind the `acquire` of its predicate and before its wait, any number of threads miss nothing: when
-- every notification has been made and a thread is blocked, the list is empty or another thread is on
-- its way to an `acquire`, and there is no request to stop.
pub pool-Wakes :
    (threads : ℕ) (m : Pool) (t : Trace (entered threads) m)
    → Waits t
    → m.posts ≡ 0
    → m.stops ≡ 0
    → any is_blocked m.threads ≡ true
    → ((m.queue ≡ []) ⊎ (any eager m.threads ≡ true)) × (m.stop ≡ false)
pool-Wakes threads m t w p s b =
    let a = trace-Armed threads m t w in let b' = waiting-some m.threads b in ground (arith, a, b')
