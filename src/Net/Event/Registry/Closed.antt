-- ===== src/Net/Event/Registry/Closed.antt =====
-- A socket that is closed while an event waits for it.
use ice_coroutines.Base.{
  ℕ, none, some, List, [], ◌∷◌, ◌≡◌, ◌≢◌, inl, inr, refl, subst, sym, ap, ◌∙◌, All, arith,
}
use ice_coroutines.Net.Service.Ownership.{count}
use ice_coroutines.Net.Event.Registry.{
  Epoll, System, idle, await, resume, Step, awaits, polls, dispatches, Trace, start, next, close,
}
use ice_coroutines.Net.Event.Registry.Laws.{Option-cases, await_added, await_refused, trace-Inv}

module _ (epoll : Epoll) (p h n : ℕ) where
  open epoll use {
    Table, find, add, remove, find-add, find-add_failed, find-remove, find-remove_failed,
    find-forget,
  }

  -- The event is waited for, and neither the table nor the batch has its address.
  record Stranded (s : System epoll) : Type 0 where
    live_there : s.live p ≡ some h
    unknown : (g : ℕ) → find s.table g ≢ some p
    unseen : All (λ x. x.1 ≢ p) s.batch
    counted : count p s.resumed ≡ n

  await-Stranded :
      (q g : ℕ) (s : System epoll) → s.live q ≡ none → Stranded s → Stranded (await epoll q g s).1
  await-Stranded q g s free i = elim (Option-cases (add s.table g q).0) [
    | inl e ↦ rw (await_added epoll q g s e) (record {
      live_there = ground (arith, i.live_there);
      unknown = λ k. ground (arith, find-add s.table g q k e, i.unknown k, i.live_there);
      unseen = i.unseen;
      counted = i.counted;
    })
    | inr (e, f) ↦ rw (await_refused epoll q g e s f) (record {
      live_there = i.live_there;
      unknown = λ k. ground (arith, find-add_failed s.table g q e k f, i.unknown k);
      unseen = i.unseen;
      counted = ground (arith, i.counted, i.live_there);
    })
  ]

  find-remove_unknown : (t : Table) (g k : ℕ) → find t k ≢ some p → find (remove t g).1 k ≢ some p
  find-remove_unknown t g k u = elim (Option-cases (remove t g).0) [
    | inl e ↦ ground (arith, find-remove t g k e)
    | inr (e, f) ↦ ground (arith, find-remove_failed t g e k f)
  ]

  resume-batch : (q : ℕ) (s : System epoll) → (resume epoll q s).1.batch ≡ s.batch
  unfolding resume
  resume-batch q s = ground arith

  resume-Stranded :
      (x : ℕ × ℕ) (b : List (ℕ × ℕ)) (s : System epoll)
      → s.batch ≡ x ∷ b
      → Stranded s
      → Stranded (resume epoll x.1 (record s { batch = b })).1
  unfolding resume
  resume-Stranded x b s e i =
      let u : All (λ y. y.1 ≢ p) (x ∷ b) = subst (All (λ y. y.1 ≢ p)) e i.unseen in
      record {
        live_there = ground (arith, i.live_there, u.0);
        unknown = λ k. elim (Option-cases (s.live x.1)) [
          | inl l ↦ ground (arith, l, i.unknown k)
          | inr (g, l) ↦ ground (arith, l, find-remove_unknown s.table g k (i.unknown k))
        ];
        unseen = subst (All (λ y. y.1 ≢ p)) (sym (resume-batch x.1 (record s { batch = b }))) u.1;
        counted = ground (arith, i.counted, u.0);
      }

  step-Stranded : (s t : System epoll) → Step epoll s t → Stranded s → Stranded t
  step-Stranded s t (awaits q g free) i = await-Stranded q g s free i
  step-Stranded s t (polls b e d r) i = record {
    live_there = i.live_there;
    unknown = i.unknown;
    unseen = polled b r;
    counted = i.counted;
  }
    where
      polled : (b : List (ℕ × ℕ)) → All (λ x. find s.table x.0 ≡ some x.1) b → All (λ x. x.1 ≢ p) b
      polled [] r = tt
      polled (x ∷ b) r = (λ e. i.unknown x.0 (r.0 ∙ ap some e), polled b r.1)
  step-Stranded s t (dispatches x b e) i = resume-Stranded x b s e i

  trace-Stranded : (s t : System epoll) → Trace epoll s t → Stranded s → Stranded t
  trace-Stranded s t start i = i
  trace-Stranded s t (next {t = r} k l) i = step-Stranded r t l (trace-Stranded s r k i)

-- Closing the handle that an event waits for, at a time when the loop has no entry of it any more, leaves the
-- coroutine suspended for good: in whatever history follows it is not resumed, even if the handle is
-- opened and waited for again.
pub close-Strands :
    (epoll : Epoll) (t : epoll.Table) (s u : System epoll) (p h : ℕ)
    → ((g : ℕ) → epoll.find t g ≡ none)
    → Trace epoll (idle epoll t) s
    → s.live p ≡ some h
    → All (λ x. x.1 ≢ p) s.batch
    → Trace epoll (close epoll h s) u
    → (u.live p ≡ some h) × (count p u.resumed ≡ count p s.resumed)
unfolding close
close-Strands epoll t s u p h empty k l b m =
    let i = trace-Inv epoll t s empty k in
    let closed : Stranded epoll p h (count p s.resumed) (close epoll h s) = record {
      live_there = l;
      unknown = λ g. ground (arith, epoll.find-forget s.table h g, i.live_find g p, l);
      unseen = b;
      counted = refl;
    } in
    let e = trace-Stranded epoll p h (count p s.resumed) (close epoll h s) u m closed in
    (e.live_there, e.counted)
