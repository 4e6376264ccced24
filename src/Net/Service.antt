-- ===== src/Net/Service.antt =====
-- src/ice/src/ice/net/service.cpp for Linux. `run` is a machine that stops at `epoll_wait`; the
-- events that it resumes and the schedules that `process` resumes are parameters, as they run the
-- coroutines of the program, and so is the memory that these share with the other threads.
pub mod Delivery
pub mod Laws
pub mod Ownership
pub mod Systems
pub mod Windows
pub mod Freebsd
mod Tests
use ice_coroutines.Base.{
  ℕ, ◌==◌, Bool, true, false, not, Option, none, some, List, [], ◌∷◌, ◌++◌, Next, goto, ret,
  if◌then◌else◌,
}
use ice_coroutines.Error.{ErrorCode, no_error, of_errno}

-- The program around the loop: its memory `W`, the flag `stop_` in it, `event::resume` for an event
-- and `scheduler::process`.
pub record Program (W : Type 0) : Type 0 where
  pub stopped : W → Bool
  pub resume : ℕ → W → W
  pub process : W → W

-- What `epoll_wait` gives: the entries, with a null pointer for the `eventfd`, or -1 and `errno`;
-- and what other threads have done to the memory meanwhile.
pub data Polled (W : Type 0) : Type 0 where
  entries : List (Option ℕ) → (W → W) → Polled W
  failed : ℕ → (W → W) → Polled W

-- What the loop keeps at `epoll_wait`: the local `stop`, and the memory.
pub record Loop (W : Type 0) : Type 0 where
  pub stop : Bool
  pub memory : W

pub record Ended (W : Type 0) : Type 0 where
  pub ec : ErrorCode
  pub memory : W

-- The timeout of the next `epoll_wait`; `none` is -1.
abbrev pub timeout : Bool → Option ℕ
timeout stop = if stop then some 1 else none

-- `interrupted`, `stop` and the memory during the `for` loop.
pub record Dispatch (W : Type 0) : Type 0 where
  pub interrupted : Bool
  pub stop : Bool
  pub memory : W

module _ {W : Type 0} (p : Program W) where
  -- The `for` loop over the entries.
  unfoldable pub dispatch : List (Option ℕ) → Dispatch W → Dispatch W
  dispatch [] d = d
  dispatch (some ev ∷ es) d = dispatch es (record d { memory = p.resume ev d.memory })
  dispatch (none ∷ es) d = dispatch es (record d { interrupted = true; stop = p.stopped d.memory })

  -- The rest of a round behind the test of `count`.
  unfoldable pub finish : Dispatch W → Loop W
  finish d = record {
    stop = d.stop;
    memory = if d.interrupted then p.process d.memory else d.memory;
  }

  -- One round of `run`, from what `epoll_wait` gave.
  unfoldable pub run_step : ℕ → Loop W → Polled W → Next (Loop W) (Ended W)
  unfolding dispatch finish
  run_step eintr s (entries [] others) =
      let w = others s.memory in
      if p.stopped w
      then ret (record { ec = no_error; memory = w })
      else goto (record s { memory = w })
  run_step eintr s (entries (e ∷ es) others) =
      let d : Dispatch W = record {
        interrupted = false;
        stop = s.stop;
        memory = others s.memory;
      } in
      goto (finish (dispatch (e ∷ es) d))
  run_step eintr s (failed errno others) =
      let w = others s.memory in
      if not (errno == eintr)
      then ret (record { ec = of_errno errno; memory = w })
      else if p.stopped w
      then ret (record { ec = no_error; memory = w })
      else goto (record s { memory = w })

-- The calls of `create`: what `epoll_create1` and `eventfd` return, `none` for -1, and whether the
-- two `epoll_ctl` fail, each with the `errno` of a failure.
pub record Calls : Type 0 where
  pub created : Option ℕ
  pub eventfd : Option ℕ
  pub added : Bool
  pub modified : Bool
  pub errno : ℕ

-- `handle_` and `events_`, and the handles that have been closed, latest first.
pub record Service : Type 0 where
  pub handle : Option ℕ
  pub events : Option ℕ
  pub closed : List ℕ

abbrev pub close : Option ℕ → List ℕ → List ℕ
close none closed = closed
close (some h) closed = h ∷ closed

-- `interrupt`.
unfoldable pub interrupt : Calls → ErrorCode
interrupt c = if c.modified then no_error else of_errno c.errno

-- `create`: the locals `handle` and `events` close what they still hold on the way out, and a move
-- into a member closes what that held.
unfoldable pub create : Calls → Service → ErrorCode × Service
unfolding interrupt
create c s = elim c.created [
  | none ↦ (of_errno c.errno, s)
  | some h ↦ elim c.eventfd [
    | none ↦ (of_errno c.errno, record s { closed = close (some h) s.closed })
    | some e ↦
        if not c.added
        then (of_errno c.errno, record s { closed = close (some h) (close (some e) s.closed) })
        else (
          interrupt c,
          record {
            handle = some h;
            events = some e;
            closed = close s.handle (close s.events s.closed);
          },
        )
  ]
]
