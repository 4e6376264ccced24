-- ===== src/Net/Event/Registry.antt =====
-- The Linux `event` of src/ice/include/ice/net/event.hpp, the loop of src/ice/src/ice/net/service.cpp
-- that resumes events, and the table of `epoll` between them, which is a parameter. An event is its
-- address: the coroutine that awaits it holds it until it goes on, and then the address is free again.
pub mod Laws
pub mod Closed
mod Tests
use ice_coroutines.Base.{
  ℕ, ◌==◌, Bool, true, false, Option, none, some, List, [], ◌∷◌, ◌≡◌, ◌≢◌, ◌⊎◌, All, Mem,
  if◌then◌else◌,
}
use ice_coroutines.Error.{ErrorCode}
use ice_coroutines.Net.Tcp.{
  Reply, done, failed, adding, deleting, Await, stays, resumes, event_step,
}

-- `epoll_ctl` and what the documentation says of it: a handle has at most one entry, the pointer that was
-- added with it. `none` is success, `some` an error number.
pub record Epoll : Type 1 where
  pub Table : Type 0
  pub find : Table → ℕ → Option ℕ
  pub add : Table → ℕ → ℕ → Option ℕ × Table
  pub remove : Table → ℕ → Option ℕ × Table
  -- The system removes the entry of a handle that is closed.
  pub forget : Table → ℕ → Table
  pub eexist : ℕ
  pub eexist_ne-zero : eexist ≢ 0
  pub add_used : (t : Table) (h p q : ℕ) → find t h ≡ some q → (add t h p).0 ≡ some eexist
  pub find-add :
      (t : Table) (h p g : ℕ)
      → (add t h p).0 ≡ none
      → find (add t h p).1 g ≡ (if h == g then some p else find t g)
  pub find-add_failed :
      (t : Table) (h p e g : ℕ) → (add t h p).0 ≡ some e → find (add t h p).1 g ≡ find t g
  pub remove_used : (t : Table) (h q : ℕ) → find t h ≡ some q → (remove t h).0 ≡ none
  pub find-remove :
      (t : Table) (h g : ℕ)
      → (remove t h).0 ≡ none
      → find (remove t h).1 g ≡ (if h == g then none else find t g)
  pub find-remove_failed :
      (t : Table) (h e g : ℕ) → (remove t h).0 ≡ some e → find (remove t h).1 g ≡ find t g
  pub find-forget :
      (t : Table) (h g : ℕ) → find (forget t h) g ≡ (if h == g then none else find t g)

abbrev pub reply : Option ℕ → Reply
reply none = done 0
reply (some e) = failed e

abbrev pub update : (ℕ → Option ℕ) → ℕ → Option ℕ → ℕ → Option ℕ
update f p v q = if p == q then v else f q

-- The handles of a batch are different from one another.
abbrev pub Distinct : List (ℕ × ℕ) → Type 0
Distinct [] = Unit
Distinct (x ∷ xs) = All (λ y. x.0 ≢ y.0) xs × Distinct xs

module _ (epoll : Epoll) where
  open epoll use {Table, find, add, remove, forget}

  pub record System : Type 0 where
    pub table : Table
    -- The handle of each event that a coroutine waits for.
    pub live : ℕ → Option ℕ
    -- The entries of the last `epoll_wait` that the loop has still to go through; it reads the pointers only.
    pub batch : List (ℕ × ℕ)
    -- How often each event has been awaited, and how often its coroutine has gone on, by address.
    pub awaited : List ℕ
    pub resumed : List ℕ
    -- Whether `resume` has been called for an address without an event.
    pub broken : Bool

  abbrev pub idle : Table → System
  idle t = record {
    table = t;
    live = λ p. none;
    batch = [];
    awaited = [];
    resumed = [];
    broken = false;
  }

  -- `co_await event`: `await_suspend`, and the code that `await_resume` returns where it fails.
  unfoldable pub await : ℕ → ℕ → System → Await × System
  unfolding event_step
  await p h s =
      let (c, t) = add s.table h p in
      let s' = record s { table = t; awaited = p ∷ s.awaited } in
      elim (event_step adding (reply c)) [
        | stays pc ↦ (stays pc, record s' { live = update s.live p (some h) })
        | resumes ec ↦ (resumes ec, record s' { resumed = p ∷ s.resumed })
      ]

  -- `event::resume` for an address, which gives the code of `await_resume` as well.
  unfoldable pub resume : ℕ → System → Await × System
  unfolding event_step
  resume p s = elim (s.live p) [
    | none ↦ (stays deleting, record s { broken = true })
    | some h ↦
        let (c, t) = remove s.table h in
        (
          event_step deleting (reply c),
          record s { table = t; live = update s.live p none; resumed = p ∷ s.resumed },
        )
  ]

  -- A coroutine awaits an event of its own; `epoll_wait` gives entries of the table, each once; and the loop
  -- resumes the next of them. Coroutines go on between the steps of a batch, too.
  pub data Step (s : System) : System → Type 0 where
    awaits : (p h : ℕ) → s.live p ≡ none → Step s (await p h s).1
    polls :
        (b : List (ℕ × ℕ))
        → s.batch ≡ []
        → Distinct b
        → All (λ x. find s.table x.0 ≡ some x.1) b
        → Step s (record s { batch = b })
    dispatches :
        (x : ℕ × ℕ) (b : List (ℕ × ℕ))
        → s.batch ≡ x ∷ b
        → Step s (resume x.1 (record s { batch = b })).1

  pub data Trace (s : System) : System → Type 0 where
    start : Trace s s
    next : {t u : System} → Trace s t → Step t u → Trace s u

  -- The destructor of a socket, or `close`, while events may wait.
  unfoldable pub close : ℕ → System → System
  close h s = record s { table = forget s.table h }
