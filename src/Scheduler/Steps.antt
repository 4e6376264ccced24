-- ===== src/Scheduler/Steps.antt =====
-- What each atomic step keeps of the lists in the links.
use mathlib.Core.List.{reverse-cons}
use ice_coroutines.Base.{
  ℕ, Option, none, some, List, [], ◌∷◌, ◌++◌, reverse, ◌≡◌, ◌≢◌, refl, subst, arith, All, ◌∙◌, ap,
  sym, All-map, Bool-cases, inl, inr, ◌==◌, ==_iff,
}
use ice_coroutines.Scheduler.{Links, update, acquire, Pc, fresh, queued, loaded, linked, System}
use ice_coroutines.Scheduler.Chain.{Chain, Distinct, Chain-update, Chain-same}
use ice_coroutines.Scheduler.Acquire.{acquire-Chain}
use ice_coroutines.Scheduler.Lists.{
  Absent-by, All-update, All-reverse, Distinct-reverse, claim, claim-own, claim-other,
}

-- The links hold the queue, newest first, and the schedules that each thread has taken, oldest first,
-- and each thread's link is the one that it stored. Who has taken a schedule keeps these lists apart.
pub record Inv (m : System) (q : List ℕ) (h : ℕ → List ℕ) : Type 0 where
  pub stack : List ℕ
  pub order : q ≡ reverse stack
  pub chain : Chain m.next m.head stack
  pub taken : (t : ℕ) → Chain m.next (m.cursor t) (h t)
  pub distinct : Distinct stack
  pub distinct_taken : (t : ℕ) → Distinct (h t)
  pub owner : ℕ → Option ℕ
  pub unowned : All (λ s. owner s ≡ none) stack
  pub owned : (t : ℕ) → All (λ s. owner s ≡ some t) (h t)
  pub waits : All (λ s. m.pc s ≡ queued) stack
  pub waits_taken : (t : ℕ) → All (λ s. m.pc s ≡ queued) (h t)
  pub links : (s : ℕ) (p : Option ℕ) → m.pc s ≡ linked p → m.next s ≡ p

-- A step of one thread that does not touch the lists.
pub quiet-Inv :
    (m : System) (q : List ℕ) (h : ℕ → List ℕ) (s : ℕ) (v : Pc)
    → m.pc s ≢ queued
    → ((p : Option ℕ) → v ≢ linked p)
    → Inv m q h
    → Inv (record m { pc = update m.pc s v }) q h
quiet-Inv m q h s v n u i =
    let free = Absent-by m.pc s queued in
    record {
      stack = i.stack;
      order = i.order;
      chain = i.chain;
      taken = i.taken;
      distinct = i.distinct;
      distinct_taken = i.distinct_taken;
      owner = i.owner;
      unowned = i.unowned;
      owned = i.owned;
      waits = All-update m.pc s v queued i.stack (free i.stack n i.waits) i.waits;
      waits_taken =
          λ t. All-update m.pc s v queued (h t) (free (h t) n (i.waits_taken t)) (i.waits_taken t);
      links = λ t p e. ground (arith, i.links t p, u p);
    }

pub store-Inv :
    (m : System) (q : List ℕ) (h : ℕ → List ℕ) (s : ℕ) (p : Option ℕ)
    → m.pc s ≡ loaded p
    → Inv m q h
    → Inv (record m { next = update m.next s p; pc = update m.pc s (linked p) }) q h
store-Inv m q h s p e i =
    let n : m.pc s ≢ queued = λ w. cc (sym e ∙ w) in
    let absent = Absent-by m.pc s queued i.stack n i.waits in
    let untaken = λ (t : ℕ). Absent-by m.pc s queued (h t) n (i.waits_taken t) in
    record {
      stack = i.stack;
      order = i.order;
      chain = Chain-update m.next m.head i.stack s p absent i.chain;
      taken = λ t. Chain-update m.next (m.cursor t) (h t) s p (untaken t) (i.taken t);
      distinct = i.distinct;
      distinct_taken = i.distinct_taken;
      owner = i.owner;
      unowned = i.unowned;
      owned = i.owned;
      waits = All-update m.pc s (linked p) queued i.stack absent i.waits;
      waits_taken = λ t. All-update m.pc s (linked p) queued (h t) (untaken t) (i.waits_taken t);
      links = λ t g k. ground (arith, i.links t g);
    }

pub exchange-Inv :
    (m : System) (q : List ℕ) (h : ℕ → List ℕ) (s : ℕ) (p : Option ℕ)
    → m.pc s ≡ linked p
    → m.head ≡ p
    → Inv m q h
    → Inv (record m { head = some s; pc = update m.pc s queued }) (q ++ s ∷ []) h
exchange-Inv m q h s p e k i =
    let n : m.pc s ≢ queued = λ w. cc (sym e ∙ w) in
    let absent = Absent-by m.pc s queued i.stack n i.waits in
    let untaken = λ (t : ℕ). Absent-by m.pc s queued (h t) n (i.waits_taken t) in
    record {
      stack = s ∷ i.stack;
      order = ap (λ l. l ++ s ∷ []) i.order ∙ sym (reverse-cons s i.stack);
      chain = (refl, subst (λ l. Chain m.next l i.stack) (k ∙ sym (i.links s p e)) i.chain);
      taken = i.taken;
      distinct = (absent, i.distinct);
      distinct_taken = i.distinct_taken;
      owner = update i.owner s none;
      unowned = (ground arith, All-update i.owner s none none i.stack absent i.unowned);
      owned = λ t. All-update i.owner s none (some t) (h t) (untaken t) (i.owned t);
      waits = (ground arith, All-update m.pc s queued queued i.stack absent i.waits);
      waits_taken = λ t. All-update m.pc s queued queued (h t) (untaken t) (i.waits_taken t);
      links = λ t g d. ground (arith, i.links t g);
    }

-- Once all schedules that it took have been resumed, a take of a thread turns the queue round.
pub take-Inv :
    (m : System) (q : List ℕ) (h : ℕ → List ℕ) (t fuel : ℕ) (next : Links) (first : Option ℕ)
    → acquire fuel m.next m.head ≡ some (next, first)
    → Inv m q h
    → Inv
        (record m { head = none; next = next; cursor = update m.cursor t first })
        []
        (update h t q)
take-Inv m q h t fuel next first a i =
    let c = acquire-Chain fuel m.next next m.head first i.stack i.chain i.distinct a in
    let claimed = claim t i.stack i.owner in
    -- What another thread has taken is not in the queue.
    let elsewhere = λ (u s : ℕ) (o : i.owner s ≡ some u).
      Absent-by i.owner s none i.stack (λ e. cc (sym o ∙ e)) i.unowned in
    record {
      stack = [];
      order = refl;
      chain = refl;
      taken = λ u. elim (Bool-cases (t == u)) [
        | inl e ↦ rw e (rw i.order c.0)
        | inr e ↦ rw e (
            Chain-same m.next next (m.cursor u) (h u)
              (All-map (λ s. i.owner s ≡ some u) (λ s. next s ≡ m.next s) (h u)
                (λ s o. c.1 s (elsewhere u s o)) (i.owned u))
              (i.taken u))
      ];
      distinct = tt;
      distinct_taken = λ u. elim (Bool-cases (t == u)) [
        | inl e ↦ rw e (rw i.order (Distinct-reverse i.stack i.distinct))
        | inr e ↦ rw e (i.distinct_taken u)
      ];
      owner = claimed;
      unowned = tt;
      owned = λ u. elim (Bool-cases (t == u)) [
        | inl e ↦ rw e (
            rw i.order (
              All-reverse (λ s. claimed s ≡ some u) i.stack
                (subst (λ v. All (λ s. claimed s ≡ some v) i.stack) ((==_iff t u).0 e)
                  (claim-own t i.stack i.owner))))
        | inr e ↦ rw e (
            All-map (λ s. i.owner s ≡ some u) (λ s. claimed s ≡ some u) (h u)
              (λ s o. claim-other t i.stack i.owner s (elsewhere u s o) ∙ o) (i.owned u))
      ];
      waits = tt;
      waits_taken = λ u. elim (Bool-cases (t == u)) [
        | inl e ↦ rw e (rw i.order (All-reverse (λ s. m.pc s ≡ queued) i.stack i.waits))
        | inr e ↦ rw e (i.waits_taken u)
      ];
      links = λ s p e.
          let absent = Absent-by m.pc s queued i.stack (λ w. cc (sym e ∙ w)) i.waits in
          c.1 s absent ∙ i.links s p e;
    }

pub resume-Inv :
    (m : System) (q : List ℕ) (h : ℕ → List ℕ) (t s : ℕ) (rest : List ℕ)
    → h t ≡ s ∷ rest
    → Inv m q h
    → Inv
        (record m { cursor = update m.cursor t (m.next s); pc = update m.pc s fresh })
        q
        (update h t rest)
resume-Inv m q h t s rest d i =
    let chain : Chain m.next (m.cursor t) (s ∷ rest) =
      subst (Chain m.next (m.cursor t)) d (i.taken t) in
    let distinct : Distinct (s ∷ rest) = subst Distinct d (i.distinct_taken t) in
    let owned : All (λ x. i.owner x ≡ some t) (s ∷ rest) =
      subst (All (λ x. i.owner x ≡ some t)) d (i.owned t) in
    let waits : All (λ x. m.pc x ≡ queued) (s ∷ rest) =
      subst (All (λ x. m.pc x ≡ queued)) d (i.waits_taken t) in
    record {
      stack = i.stack;
      order = i.order;
      chain = i.chain;
      taken = λ u. elim (Bool-cases (t == u)) [ inl e ↦ rw e chain.1 | inr e ↦ rw e (i.taken u) ];
      distinct = i.distinct;
      distinct_taken = λ u. elim (Bool-cases (t == u)) [
        | inl e ↦ rw e distinct.1
        | inr e ↦ rw e (i.distinct_taken u)
      ];
      owner = i.owner;
      unowned = i.unowned;
      owned = λ u. elim (Bool-cases (t == u)) [
        | inl e ↦ rw e (subst (λ v. All (λ x. i.owner x ≡ some v) rest) ((==_iff t u).0 e) owned.1)
        | inr e ↦ rw e (i.owned u)
      ];
      waits =
          All-update m.pc s fresh queued i.stack
            (Absent-by i.owner s none i.stack (λ e. cc (sym owned.0 ∙ e)) i.unowned) i.waits;
      waits_taken = λ u. elim (Bool-cases (t == u)) [
        | inl e ↦ rw e (All-update m.pc s fresh queued rest distinct.0 waits.1)
        | inr e ↦ rw e (
            All-update m.pc s fresh queued (h u)
              (Absent-by i.owner s (some u) (h u) (λ o. ground (arith, e, owned.0, o)) (i.owned u))
              (i.waits_taken u))
      ];
      links = λ t p e. ground (arith, i.links t p);
    }
