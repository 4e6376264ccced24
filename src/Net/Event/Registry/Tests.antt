-- ===== src/Net/Event/Registry/Tests.antt =====
-- A table that is a function, with two sockets: 7 waits to receive and is asked to send meanwhile.
use ice_coroutines.Base.{
  ℕ, ◌+◌, ◌==◌, false, Option, none, some, [], ◌∷◌, ◌≡◌, ◌≢◌, ◌⊎◌, ◌↔◌, refl, arith, if◌then◌else◌,
}
use ice_coroutines.Error.{of_errno}
use ice_coroutines.Net.Tcp.{resumes, event_step}
use ice_coroutines.Net.Service.Ownership.{count}
use ice_coroutines.Net.Event.Registry.{
  Epoll, update, System, idle, await, resume, awaits, polls, dispatches, Trace, start, next, close,
}
use ice_coroutines.Net.Event.Registry.Laws.{lives, events-Registered}
use ice_coroutines.Net.Event.Registry.Closed.{close-Strands}

abbrev Table : Type 0
Table = ℕ → Option ℕ

abbrev add : Table → ℕ → ℕ → Option ℕ × Table
add t h p = elim (t h) [ none ↦ (none, update t h (some p)) | some q ↦ (some 17, t) ]

abbrev remove : Table → ℕ → Option ℕ × Table
remove t h = elim (t h) [ none ↦ (some 2, t) | some q ↦ (none, update t h none) ]

eexist_ne-zero : ◌≢◌ {A = ℕ} 17 0
eexist_ne-zero e = ground arith

seven_ne-eight : ◌≢◌ {A = ℕ} 7 8
seven_ne-eight e = ground arith

add_used : (t : Table) (h p q : ℕ) → t h ≡ some q → (add t h p).0 ≡ some 17
add_used t h p q e = ground arith

find-add :
    (t : Table) (h p g : ℕ)
    → (add t h p).0 ≡ none
    → (add t h p).1 g ≡ (if h == g then some p else t g)
find-add t h p g e = ground arith

find-add_failed : (t : Table) (h p e g : ℕ) → (add t h p).0 ≡ some e → (add t h p).1 g ≡ t g
find-add_failed t h p e g f = ground arith

remove_used : (t : Table) (h q : ℕ) → t h ≡ some q → (remove t h).0 ≡ none
remove_used t h q e = ground arith

find-remove :
    (t : Table) (h g : ℕ)
    → (remove t h).0 ≡ none
    → (remove t h).1 g ≡ (if h == g then none else t g)
find-remove t h g e = ground arith

find-remove_failed : (t : Table) (h e g : ℕ) → (remove t h).0 ≡ some e → (remove t h).1 g ≡ t g
find-remove_failed t h e g f = ground arith

abbrev functions : Epoll
functions = record {
  Table = Table;
  find = λ t h. t h;
  add = add;
  remove = remove;
  forget = λ t h. update t h none;
  eexist = 17;
  eexist_ne-zero = eexist_ne-zero;
  add_used = add_used;
  find-add = find-add;
  find-add_failed = find-add_failed;
  remove_used = remove_used;
  find-remove = find-remove;
  find-remove_failed = find-remove_failed;
  find-forget = λ t h g. refl;
}

abbrev empty : Table
empty h = none

-- The events 100 and 101 wait for 7 and 8, and a batch has both; the coroutine of the first goes on and
-- awaits again, at the same address.
history : (s : System functions) × Trace functions (idle functions empty) s
unfolding await resume event_step
history = (
  _,
  next
      (next
        (next (next (next start (awaits 100 7 refl)) (awaits 101 8 refl)) (
          polls ((7, 100) ∷ (8, 101) ∷ []) refl ((seven_ne-eight, tt), (tt, tt))
            (refl, (refl, tt))))
        (dispatches (7, 100) ((8, 101) ∷ []) refl))
      (awaits 100 7 refl),
)

history-resumed : history.0.resumed ≡ 100 ∷ []
unfolding history await resume event_step
history-resumed = refl

events-Registered_example :
    (history.0.broken ≡ false)
    × ((history.0.live 100 ≡ some 7) ↔ (history.0.table 7 ≡ some 100))
    × (count 100 history.0.awaited ≡ count 100 history.0.resumed + lives (history.0.live 100))
    × ((history.0.live 100 ≢ some 7)
        ⊎ ((await functions 102 7 history.0).0 ≡ resumes (of_errno 17)))
events-Registered_example =
    events-Registered functions empty history.0 100 102 7 (λ h. refl) history.1

-- A third event, for the handle 7 that the first one waits for.
history-busy : (await functions 102 7 history.0).0 ≡ resumes (of_errno 17)
unfolding history await resume event_step
history-busy = refl

abbrev waiting : System functions
waiting = (await functions 100 7 (idle functions empty)).1

-- The handle 7 is closed, opened again and waited for by another event.
reopened : (s : System functions) × Trace functions (close functions 7 waiting) s
unfolding await resume event_step close
reopened = (
  _,
  next (next (next start (awaits 103 7 refl)) (polls ((7, 103) ∷ []) refl (tt, tt) (refl, tt)))
      (dispatches (7, 103) [] refl),
)

close-Strands_example :
    (reopened.0.live 100 ≡ some 7) × (count 100 reopened.0.resumed ≡ count 100 waiting.resumed)
unfolding await event_step
close-Strands_example =
    close-Strands functions empty waiting reopened.0 100 7 (λ h. refl)
      (next start (awaits 100 7 refl)) refl tt reopened.1
