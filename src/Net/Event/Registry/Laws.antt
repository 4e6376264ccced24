-- ===== src/Net/Event/Registry/Laws.antt =====
-- Every event that is waited for is in the table, and every pointer that the service gets is one of those.
use ice_coroutines.Base.{
  ℕ, ◌+◌, false, Option, none, some, List, [], ◌∷◌, ◌≡◌, ◌≢◌, ◌⊎◌, inl, inr, ◌↔◌, refl, subst, sym,
  ◌∙◌, All, arith, Bool-cases, ◌==◌,
}
use ice_coroutines.Error.{no_error, of_errno}
use ice_coroutines.Net.Tcp.{stays, resumes, suspended}
use ice_coroutines.Net.Service.Ownership.{count}
use ice_coroutines.Net.Event.Registry.{
  Epoll, update, Distinct, System, idle, await, resume, Step, awaits, polls, dispatches, Trace,
  start, next,
}

abbrev pub lives : Option ℕ → ℕ
lives none = 0
lives (some h) = 1

pub Option-cases : (o : Option ℕ) → (o ≡ none) ⊎ ((e : ℕ) × (o ≡ some e))
Option-cases none = inl refl
Option-cases (some e) = inr (e, refl)

-- Entries of a batch whose events stay.
pub All-live :
    (live live' : ℕ → Option ℕ) (b : List (ℕ × ℕ))
    → ((x : ℕ × ℕ) → live x.1 ≡ some x.0 → live' x.1 ≡ some x.0)
    → All (λ x. live x.1 ≡ some x.0) b
    → All (λ x. live' x.1 ≡ some x.0) b
All-live live live' [] f h = tt
All-live live live' (x ∷ b) f h = (f x h.0, All-live live live' b f h.1)

-- The entries behind one of them have other handles.
All-behind :
    (live : ℕ → Option ℕ) (x : ℕ × ℕ) (b : List (ℕ × ℕ))
    → live x.1 ≡ some x.0
    → All (λ y. x.0 ≢ y.0) b
    → All (λ y. live y.1 ≡ some y.0) b
    → All (λ y. update live x.1 none y.1 ≡ some y.0) b
All-behind live x [] e d h = tt
All-behind live x (y ∷ b) e d h = (ground (arith, h.0, d.0), All-behind live x b e d.1 h.1)

waits-or : (o : Option ℕ) (h : ℕ) → (o ≢ some h) ⊎ (o ≡ some h)
waits-or none h = inl (λ e. cc)
waits-or (some g) h = elim (Bool-cases (g == h)) [
  | inl e ↦ inr (ground (arith, e))
  | inr e ↦ inl (λ f. ground (arith, e))
]

module _ (epoll : Epoll) where
  open epoll use {
    Table, find, add, remove, eexist, eexist_ne-zero, add_used, find-add, find-add_failed,
    remove_used, find-remove,
  }

  pub record Inv (s : System epoll) : Type 0 where
    pub find_live : (p h : ℕ) → s.live p ≡ some h → find s.table h ≡ some p
    pub live_find : (h p : ℕ) → find s.table h ≡ some p → s.live p ≡ some h
    pub distinct : Distinct s.batch
    pub batch_live : All (λ x. s.live x.1 ≡ some x.0) s.batch
    pub unbroken : s.broken ≡ false
    pub counts : (p : ℕ) → count p s.awaited ≡ count p s.resumed + lives (s.live p)

  -- What `await` does where the handle can be added, and where it cannot.
  pub await_added :
      (p h : ℕ) (s : System epoll)
      → (add s.table h p).0 ≡ none
      → await epoll p h s ≡ (
        stays suspended,
        record s {
          table = (add s.table h p).1;
          live = update s.live p (some h);
          awaited = p ∷ s.awaited;
        },
      )
  unfolding await
  await_added p h s e = ground arith

  pub await_refused :
      (p h e : ℕ) (s : System epoll)
      → (add s.table h p).0 ≡ some e
      → await epoll p h s ≡ (
        resumes (of_errno e),
        record s { table = (add s.table h p).1; awaited = p ∷ s.awaited; resumed = p ∷ s.resumed },
      )
  unfolding await
  await_refused p h e s f = ground arith

  resume_live :
      (p h : ℕ) (s : System epoll)
      → s.live p ≡ some h
      → (remove s.table h).0 ≡ none
      → resume epoll p s ≡ (
        resumes no_error,
        record s {
          table = (remove s.table h).1;
          live = update s.live p none;
          resumed = p ∷ s.resumed;
        },
      )
  unfolding resume
  resume_live p h s e f = ground arith

  unused : (t : Table) (h p : ℕ) → (add t h p).0 ≡ none → find t h ≡ none
  unused t h p e = elim (Option-cases (find t h)) [
    | inl f ↦ f
    | inr (q, f) ↦ ground (arith, add_used t h p q f)
  ]

  await-Inv : (p h : ℕ) (s : System epoll) → s.live p ≡ none → Inv s → Inv (await epoll p h s).1
  await-Inv p h s free i = elim (Option-cases (add s.table h p).0) [
    | inl e ↦ rw (await_added p h s e) (record {
      find_live =
          λ q g l. ground (arith, find-add s.table h p g e, i.find_live q g, unused s.table h p e);
      live_find = λ g q f. ground (arith, find-add s.table h p g e, i.live_find g q);
      distinct = i.distinct;
      batch_live =
          All-live s.live (update s.live p (some h)) s.batch (λ x l. ground arith) i.batch_live;
      unbroken = i.unbroken;
      counts = λ q. ground (arith, i.counts q);
    })
    | inr (e, f) ↦ rw (await_refused p h e s f) (record {
      find_live = λ q g l. find-add_failed s.table h p e g f ∙ i.find_live q g l;
      live_find = λ g q k. i.live_find g q (sym (find-add_failed s.table h p e g f) ∙ k);
      distinct = i.distinct;
      batch_live = i.batch_live;
      unbroken = i.unbroken;
      counts = λ q. ground (arith, i.counts q);
    })
  ]

  resume-Inv :
      (x : ℕ × ℕ) (b : List (ℕ × ℕ)) (s : System epoll)
      → s.batch ≡ x ∷ b
      → Inv s
      → Inv (resume epoll x.1 (record s { batch = b })).1
  resume-Inv x b s e i =
      let d : Distinct (x ∷ b) = subst Distinct e i.distinct in
      let a : All (λ y. s.live y.1 ≡ some y.0) (x ∷ b) =
        subst (All (λ y. s.live y.1 ≡ some y.0)) e i.batch_live in
      let gone = remove_used s.table x.0 x.1 (i.find_live x.1 x.0 a.0) in
      rw (resume_live x.1 x.0 (record s { batch = b }) a.0 gone) (record {
        find_live = λ q g l.
            ground
              (arith, find-remove s.table x.0 g gone, i.find_live q g, i.find_live x.1 x.0 a.0);
        live_find = λ g q f. ground (arith, find-remove s.table x.0 g gone, i.live_find g q, a.0);
        distinct = d.1;
        batch_live = All-behind s.live x b a.0 d.0 a.1;
        unbroken = i.unbroken;
        counts = λ q. ground (arith, i.counts q, a.0);
      })

  step-Inv : (s t : System epoll) → Step epoll s t → Inv s → Inv t
  step-Inv s t (awaits p h free) i = await-Inv p h s free i
  step-Inv s t (polls b e d r) i = record {
    find_live = i.find_live;
    live_find = i.live_find;
    distinct = d;
    batch_live = polled b r;
    unbroken = i.unbroken;
    counts = i.counts;
  }
    where
      polled :
          (b : List (ℕ × ℕ))
          → All (λ x. find s.table x.0 ≡ some x.1) b
          → All (λ x. s.live x.1 ≡ some x.0) b
      polled [] r = tt
      polled (x ∷ b) r = (i.live_find x.0 x.1 r.0, polled b r.1)
  step-Inv s t (dispatches x b e) i = resume-Inv x b s e i

  pub trace-Inv :
      (t : Table) (s : System epoll)
      → ((h : ℕ) → find t h ≡ none)
      → Trace epoll (idle epoll t) s
      → Inv s
  trace-Inv t s empty start = record {
    find_live = λ p h l. ground arith;
    live_find = λ h p f. ground (arith, empty h);
    distinct = tt;
    batch_live = tt;
    unbroken = refl;
    counts = λ p. omega arith;
  }
  trace-Inv t s empty (next {t = r} h k) = step-Inv r s k (trace-Inv t r empty h)

  -- While an event waits for a handle, every other one for the same handle ends at once.
  await-Busy :
      (s : System epoll) (p q h : ℕ)
      → Inv s
      → s.live p ≡ some h
      → (await epoll q h s).0 ≡ resumes (of_errno eexist)
  await-Busy s p q h i l =
      ground (arith, await_refused q h eexist s (add_used s.table h q p (i.find_live p h l)))

  -- Over any history of a table that is empty at first, in which no handle is closed under a waiting
  -- event: the service resumes no address without an event; exactly the events that are waited for
  -- are in the table, each under its handle; each `co_await` has gone on once or is the one that
  -- waits; and while an event waits for a handle, every other one for the same handle ends at once with
  -- `EEXIST`, whatever it would wait for, so that no socket can wait to receive and to send at once.
  pub events-Registered :
      (t : Table) (s : System epoll) (p q h : ℕ)
      → ((h : ℕ) → find t h ≡ none)
      → Trace epoll (idle epoll t) s
      → (s.broken ≡ false)
        × ((s.live p ≡ some h) ↔ (find s.table h ≡ some p))
        × (count p s.awaited ≡ count p s.resumed + lives (s.live p))
        × ((s.live p ≢ some h) ⊎ ((await epoll q h s).0 ≡ resumes (of_errno eexist)))
  events-Registered t s p q h empty k =
      let i = trace-Inv t s empty k in
      (
        i.unbroken,
        (i.find_live p h, i.live_find h p),
        i.counts p,
        elim (waits-or (s.live p) h) [ inl n ↦ inl n | inr l ↦ inr (await-Busy s p q h i l) ],
      )
