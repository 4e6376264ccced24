-- ===== src/Utility/Current.antt =====
-- When a coroutine that schedules itself goes on at once.
use ice_coroutines.Base.{
  ℕ, ◌==◌, ==_iff, Bool, true, false, not, ◌&&◌, ◌||◌, Option, none, some, List, [], ◌∷◌, ◌++◌,
  if◌then◌else◌, ◌≡◌, ◌≢◌, refl, sym, ap, ◌∙◌, arith, append-nil, Bool-cases, inl, inr,
}
use ice_coroutines.Scheduler.{await_ready}
use ice_coroutines.Utility.{
  Values, lock, unlock, present, is_current, Calls, nothing, runs, schedules, exec,
}

unfoldable pub mem : ℕ → List ℕ → Bool
mem s [] = false
mem s (x ∷ xs) = s == x || mem s xs

-- The reference: which schedulers are running is a stack, which every call of `run` adds to until it
-- returns. A `schedule` is ready where its scheduler is on the stack and no post was asked for.
unfoldable pub expected : List ℕ → Calls → List Bool
unfolding mem
expected stack nothing = []
expected stack (runs s inside more) = expected (s ∷ stack) inside ++ expected stack more
expected stack (schedules s post more) = (not post && mem s stack) ∷ expected stack more

-- No scheduler is run within itself.
abbrev pub NoReentry : List ℕ → Calls → Type 0
NoReentry stack nothing = Unit
NoReentry stack (runs s inside more) =
    (mem s stack ≡ false) × NoReentry (s ∷ stack) inside × NoReentry stack more
NoReentry stack (schedules s post more) = NoReentry stack more

itself : (n : ℕ) → (n == n) ≡ true
itself n = ground arith

present-some :
    (b : Bool) (p : ℕ) (x : Option ℕ) → present (if b then some p else x) ≡ (b || present x)
present-some true p x = refl
present-some false p x = refl

present-none : (b : Bool) (x : Option ℕ) → present (if b then none else x) ≡ (not b && present x)
present-none true x = refl
present-none false x = refl

module _ (thread : ℕ) where
  abbrev pub Agrees : List ℕ → Values → Type 0
  Agrees stack v = (s : ℕ) → is_current v thread s ≡ mem s stack

  current-lock :
      (v : Values) (s k : ℕ)
      → is_current (lock v thread s s) thread k ≡ (k == s || is_current v thread k)
  unfolding is_current lock
  current-lock v s k =
      ap (λ b. present (if b && k == s then some s else v thread k)) (itself thread)
      ∙ present-some (k == s) s (v thread k)

  current-unlock :
      (v : Values) (s k : ℕ)
      → is_current (unlock v thread s) thread k ≡ (not (k == s) && is_current v thread k)
  unfolding is_current unlock
  current-unlock v s k =
      ap (λ b. present (if b && k == s then none else v thread k)) (itself thread)
      ∙ present-none (k == s) (v thread k)

  lock-Agrees :
      (stack : List ℕ) (v : Values) (s : ℕ)
      → Agrees stack v
      → Agrees (s ∷ stack) (lock v thread s s)
  unfolding mem
  lock-Agrees stack v s a k = rw (current-lock v s k) (ap (λ b. k == s || b) (a k))

  unlock-Agrees :
      (stack : List ℕ) (v : Values) (s : ℕ)
      → mem s stack ≡ false
      → Agrees (s ∷ stack) v
      → Agrees stack (unlock v thread s)
  unfolding mem
  unlock-Agrees stack v s h a k = elim (Bool-cases (k == s)) [
    | inl e ↦
        current-unlock v s k
        ∙ ap (λ b. not b && is_current v thread k) e
        ∙ sym (ap (λ x. mem x stack) ((==_iff k s).0 e) ∙ h)
    | inr e ↦
        current-unlock v s k
        ∙ ap (λ b. not b && is_current v thread k) e
        ∙ a k
        ∙ ap (λ b. b || mem k stack) e
  ]

  set-others :
      (v : Values) (s t k : ℕ)
      → t ≢ thread
      → (lock v thread s s t k ≡ v t k) × (unlock v thread s t k ≡ v t k)
  unfolding lock unlock
  set-others v s t k ne = ground arith

  -- Where no scheduler is run within itself, a `schedule` is ready exactly where its scheduler is
  -- running further up on the thread and no post was asked for; afterwards the thread is on the same
  -- schedulers as before, and no other thread sees a change.
  pub exec-Agrees :
      (stack : List ℕ) (calls : Calls) (v : Values)
      → NoReentry stack calls
      → Agrees stack v
      → ((exec thread calls v).0 ≡ expected stack calls)
        × Agrees stack (exec thread calls v).1
        × ((t k : ℕ) → t ≢ thread → (exec thread calls v).1 t k ≡ v t k)
  unfolding exec expected await_ready
  exec-Agrees stack nothing v n a = (refl, a, λ t k ne. refl)
  exec-Agrees stack (runs s inside more) v n a =
      let during = exec thread inside (lock v thread s s) in
      let (d, e, f) =
        exec-Agrees (s ∷ stack) inside (lock v thread s s) n.1 (lock-Agrees stack v s a) in
      let (g, h, l) =
        exec-Agrees stack more (unlock during.1 thread s) n.2
          (unlock-Agrees stack during.1 s n.0 e) in
      (
        ap (λ x. x ++ (exec thread more (unlock during.1 thread s)).0) d
            ∙ ap (λ y. expected (s ∷ stack) inside ++ y) g,
        h,
        λ t k ne.
            l t k ne ∙ (set-others during.1 s t k ne).1 ∙ f t k ne ∙ (set-others v s t k ne).0,
      )
  exec-Agrees stack (schedules s post more) v n a =
      let (d, e, f) = exec-Agrees stack more v n a in
      (
        ap (λ b. (not post && b) ∷ (exec thread more v).0) (a s)
            ∙ ap (λ l. (not post && mem s stack) ∷ l) d,
        e,
        f,
      )

  -- A scheduler that is run within itself is not current behind the inner call, although the outer one
  -- has not returned: whatever happens inside, a `schedule` there is not ready.
  pub exec-reentered :
      (s : ℕ) (inside : Calls) (v : Values)
      → (exec thread (runs s (runs s inside (schedules s false nothing)) nothing) v).0
        ≡ (exec thread inside (lock (lock v thread s s) thread s s)).0 ++ false ∷ []
  unfolding exec await_ready
  exec-reentered s inside v =
      let left = exec thread inside (lock (lock v thread s s) thread s s) in
      append-nil (left.0 ++ is_current (unlock left.1 thread s) thread s ∷ [])
      ∙ ap (λ b. left.0 ++ b ∷ [])
          (current-unlock left.1 s s ∙ ap (λ b. not b && is_current left.1 thread s) (itself s))
