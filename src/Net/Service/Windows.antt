-- ===== src/Net/Service/Windows.antt =====
-- src/ice/src/ice/net/service.cpp for Windows: `create`, a round of `run`, and `post`, `stop` and
-- `interrupt` against the thread in `run`, each step of a thread at a time. A completion port keeps
-- every packet that is posted to it until it is dequeued; those of `interrupt` have no event.
pub mod Laws
mod Tests
use ice_coroutines.Base.{
  ℕ, suc, ◌+◌, ◌==◌, ltb, Bool, true, false, not, ◌&&◌, ◌||◌, Option, none, some, List, [], ◌∷◌,
  ◌++◌, Next, goto, ret, if◌then◌else◌, ◌≡◌, ◌≢◌,
}
use ice_coroutines.Error.{
  ErrorCode, Category, no_error, is_error, of_errno, errc_value, version_mismatch,
}
use ice_coroutines.Net.Service.{Program, Loop, Ended, Dispatch, dispatch, finish, Service, close}

-- What `WSAStartup` returns, and the version that `wsadata` has then.
pub record Startup : Type 0 where
  pub rc : ℕ
  pub major : ℕ
  pub minor : ℕ

-- `make_error_code(errc::version_mismatch)`.
abbrev pub mismatch : ErrorCode
mismatch = record { value = errc_value version_mismatch; category = Category.domain }

-- The constructor of the static `wsa`: its `ec`.
unfoldable pub wsa_ec : Startup → ErrorCode
wsa_ec w =
    let ec = if w.rc == 0 then no_error else of_errno w.rc in
    if ltb w.major 2 || (w.major == 2 && ltb w.minor 2) then mismatch else ec

-- The calls of `create`: the completion port, `none` for a null handle, and whether a packet can be
-- posted to it; and the last error of a failure.
pub record Calls : Type 0 where
  pub startup : Startup
  pub created : Option ℕ
  pub interrupted : Bool
  pub error : ℕ

-- `interrupt`.
unfoldable pub interrupt : Calls → ErrorCode
interrupt c = if not c.interrupted then of_errno c.error else no_error

unfoldable pub create : Calls → Service → ErrorCode × Service
unfolding interrupt
create c s = if is_error (wsa_ec c.startup) then (wsa_ec c.startup, s) else elim c.created [
  | none ↦ (of_errno c.error, s)
  | some h ↦ (interrupt c, record s { handle = some h; closed = close s.handle s.closed })
]

-- What `GetQueuedCompletionStatusEx` gives: the entries, or the last error; and what other threads
-- have done to the memory meanwhile.
pub data Dequeued (W : Type 0) : Type 0 where
  entries : List (Option ℕ) → (W → W) → Dequeued W
  failed : ℕ → (W → W) → Dequeued W

-- The numbers that the code names.
pub record Numbers : Type 0 where
  pub error_abandoned_wait_0 : ℕ
  pub wait_timeout : ℕ

-- One round of `run`. The `for` loop and what is behind it are those of the other systems.
unfoldable pub run_step :
    {W : Type 0} → Program W → Numbers → Loop W → Dequeued W → Next (Loop W) (Ended W)
unfolding dispatch finish
run_step p sys s (failed e others) =
    let w = others s.memory in
    if not (e == sys.error_abandoned_wait_0) && not (e == sys.wait_timeout)
    then ret (record { ec = of_errno e; memory = w })
    else ret (record { ec = no_error; memory = w })
run_step p sys s (entries [] others) = ret (record { ec = no_error; memory = others s.memory })
run_step p sys s (entries (e ∷ es) others) = goto (
    finish p (
      dispatch p (e ∷ es)
        (record { interrupted = false; stop = s.stop; memory = others s.memory })))

-- Where `run` stands: at the call, with packets of `interrupt` among its entries before the load of
-- `stop_`, before `process`, in its loop, or returned.
pub data Running : Type 0 where
  polling dispatching woken returned : Running
  resuming : List ℕ → Running

pub record System : Type 0 where
  pub queue : List ℕ
  pub stop_flag : Bool
  -- The local `stop` of `run`.
  pub stop : Bool
  -- The packets of `interrupt` in the port.
  pub packets : ℕ
  pub running : Running
  -- Calls of `post` and `stop` that have still to call `interrupt`.
  pub notices : ℕ
  -- An `interrupt` has failed; its caller has the error.
  pub refused : Bool
  -- The schedules posted and those resumed so far, oldest first.
  pub posted : List ℕ
  pub resumed : List ℕ

-- A service whose `create` has succeeded, with its packet, and a thread that has entered `run`.
abbrev pub entered : System
entered = record {
  queue = [];
  stop_flag = false;
  stop = false;
  packets = 1;
  running = polling;
  notices = 0;
  refused = false;
  posted = [];
  resumed = [];
}

pub data Step (m : System) : System → Type 0 where
  post :
      (s : ℕ)
      → Step m (record m {
        queue = m.queue ++ s ∷ [];
        posted = m.posted ++ s ∷ [];
        notices = suc m.notices;
      })
  set_stop : (b : Bool) → Step m (record m { stop_flag = b; notices = suc m.notices })
  interrupts :
      (n : ℕ) → m.notices ≡ suc n → Step m (record m { notices = n; packets = suc m.packets })
  interrupt_fails : (n : ℕ) → m.notices ≡ suc n → Step m (record m { notices = n; refused = true })
  -- Some of the packets, as many as fit among the entries. Entries of events alone change nothing.
  dequeue :
      (taken left : ℕ)
      → m.running ≡ polling
      → m.packets ≡ suc taken + left
      → Step m (record m { packets = left; running = dispatching })
  load_stop : m.running ≡ dispatching → Step m (record m { stop = m.stop_flag; running = woken })
  -- A wait of a millisecond, which needs a local `stop`, ends with no packet in the port.
  time_out :
      m.running ≡ polling → m.stop ≡ true → m.packets ≡ 0 → Step m (record m { running = returned })
  fail : m.running ≡ polling → Step m (record m { running = returned })
  acquire : m.running ≡ woken → Step m (record m { queue = []; running = resuming m.queue })
  resume :
      (x : ℕ) (xs : List ℕ)
      → m.running ≡ resuming (x ∷ xs)
      → Step m (record m { running = resuming xs; resumed = m.resumed ++ x ∷ [] })
  finish_process : m.running ≡ resuming [] → Step m (record m { running = polling })

pub data Trace (m : System) : System → Type 0 where
  start : Trace m m
  next : {n o : System} → Trace m n → Step n o → Trace m o
