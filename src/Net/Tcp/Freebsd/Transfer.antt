-- ===== src/Net/Tcp/Freebsd/Transfer.antt =====
-- `recv`, `send` and `accept` of src/ice/src/ice/net/tcp/socket.cpp for FreeBSD, against those for Linux.
use ice_coroutines.Base.{
  ℕ, Option, List, [], ◌∷◌, ◌++◌, Next, goto, ret, Progress, returned, run, Next-cases, run-goto,
  run-ret, ◌≡◌, ◌≢◌, refl, sym, ◌∙◌, ap, arith, inl, inr,
}
use ice_coroutines.Net.Tcp.{
  Reply, done, resumed, Errnos, Pc, calling, suspended, deleting, Transferred, Sending, recv_with,
  send_with, accept_with, recv_step, send_step, accept_step,
}
use ice_coroutines.Net.Tcp.Freebsd.{event_step}

module _ (sys : Errnos) where
  unfoldable pub freebsd_recv_step : Pc → Reply → Next Pc Transferred
  unfolding recv_with event_step
  freebsd_recv_step pc r = recv_with event_step sys pc r

  unfoldable pub freebsd_send_step : Sending → Reply → Next Sending Transferred
  unfolding send_with event_step
  freebsd_send_step s r = send_with event_step sys s r

  unfoldable pub freebsd_accept_step : Pc → Reply → Next Pc (Option ℕ)
  unfolding accept_with event_step
  freebsd_accept_step pc r = accept_with event_step sys pc r

-- The replies that Linux gets in addition for a history on FreeBSD: that of `EPOLL_CTL_DEL` where an event has occurred.
unfoldable pub removal : Pc → Reply → List Reply
removal suspended (resumed e) = done 0 ∷ []
removal _ _ = []

-- The history of a machine for FreeBSD with the replies of those calls.
module _ {S A : Type 0} (place : S → Pc) (step : S → Reply → Next S A) where
  unfoldable pub with_removals : S → List Reply → List Reply
  with_removals s [] = []
  with_removals s (r ∷ rs) =
      r ∷ (removal (place s) r ++ (elim (step s r) [ goto t ↦ with_removals t rs | ret a ↦ rs ]))

  abbrev behind : Next S A → List Reply → List Reply
  behind n rs = elim n [ goto t ↦ with_removals t rs | ret a ↦ rs ]

  abbrev continued : Next S A → List Reply → Progress Reply S A
  continued (goto t) rs = run step t rs
  continued (ret a) rs = returned a rs

module _ {S A : Type 0} (place : S → Pc) (linux freebsd : S → Reply → Next S A)
    (same : (s : S) (r : Reply) (rs : List Reply)
      → place s ≢ deleting
      → run linux s (r ∷ (removal (place s) r ++ rs)) ≡ continued place linux (freebsd s r) rs)
    (kept : (s t : S) (r : Reply)
      → place s ≢ deleting
      → freebsd s r ≡ goto t
      → place t ≢ deleting) where
  with_removals-run :
      (s : S) (rs : List Reply)
      → place s ≢ deleting
      → run linux s (with_removals place freebsd s rs) ≡ run freebsd s rs
  unfolding run with_removals
  with_removals-run s [] n = refl
  with_removals-run s (r ∷ rs) n = elim (Next-cases (freebsd s r)) [
    | inl (t, e) ↦
        let more = with_removals place freebsd t rs in
        ap (λ m. run linux s (r ∷ (removal (place s) r ++ behind place freebsd m rs))) e
        ∙ same s r more n
        ∙ ap (λ m. continued place linux m more) e
        ∙ with_removals-run t rs (kept s t r n e)
        ∙ sym (run-goto freebsd rs e)
    | inr (a, e) ↦
        ap (λ m. run linux s (r ∷ (removal (place s) r ++ behind place freebsd m rs))) e
        ∙ same s r rs n
        ∙ ap (λ m. continued place linux m rs) e
        ∙ sym (run-ret freebsd rs e)
  ]

module _ (sys : Errnos) where
  recv-same :
      (pc : Pc) (r : Reply) (rs : List Reply)
      → pc ≢ deleting
      → run (recv_step sys) pc (r ∷ (removal pc r ++ rs))
        ≡ continued (λ p. p) (recv_step sys) (freebsd_recv_step sys pc r) rs
  unfolding run recv_step freebsd_recv_step removal
  recv-same pc r rs n = ground arith

  recv-kept :
      (pc t : Pc) (r : Reply) → pc ≢ deleting → freebsd_recv_step sys pc r ≡ goto t → t ≢ deleting
  unfolding freebsd_recv_step
  recv-kept pc t r n e = ground arith

  accept-same :
      (pc : Pc) (r : Reply) (rs : List Reply)
      → pc ≢ deleting
      → run (accept_step sys) pc (r ∷ (removal pc r ++ rs))
        ≡ continued (λ p. p) (accept_step sys) (freebsd_accept_step sys pc r) rs
  unfolding run accept_step freebsd_accept_step removal
  accept-same pc r rs n = ground arith

  accept-kept :
      (pc t : Pc) (r : Reply) → pc ≢ deleting → freebsd_accept_step sys pc r ≡ goto t → t ≢ deleting
  unfolding freebsd_accept_step
  accept-kept pc t r n e = ground arith

  send-same :
      (s : Sending) (r : Reply) (rs : List Reply)
      → s.pc ≢ deleting
      → run (send_step sys) s (r ∷ (removal s.pc r ++ rs))
        ≡ continued (λ s. s.pc) (send_step sys) (freebsd_send_step sys s r) rs
  unfolding run send_step freebsd_send_step removal
  send-same s r rs n = ground arith

  send-kept :
      (s t : Sending) (r : Reply)
      → s.pc ≢ deleting
      → freebsd_send_step sys s r ≡ goto t
      → t.pc ≢ deleting
  unfolding freebsd_send_step
  send-kept s t r n e = ground arith

  calling_ne-deleting : calling ≢ deleting
  calling_ne-deleting e = ground arith

  -- On FreeBSD `recv`, `send` and `accept` do, over every sequence of replies, what they do on Linux
  -- where each removal of an event that has occurred succeeds: they return the same from the same replies, or
  -- stand at the same call.
  freebsd-linux :
      (s : Sending) (rs : List Reply)
      → s.pc ≡ calling
      → (run (freebsd_recv_step sys) calling rs
          ≡ run
              (recv_step sys)
              calling
              (with_removals (λ pc. pc) (freebsd_recv_step sys) calling rs))
        × (run (freebsd_send_step sys) s rs
            ≡ run (send_step sys) s (with_removals (λ t. t.pc) (freebsd_send_step sys) s rs))
        × (run (freebsd_accept_step sys) calling rs
            ≡ run
                (accept_step sys)
                calling
                (with_removals (λ pc. pc) (freebsd_accept_step sys) calling rs))
  freebsd-linux s rs e = (
    sym (
        with_removals-run (λ pc. pc) (recv_step sys) (freebsd_recv_step sys) recv-same recv-kept
          calling rs calling_ne-deleting),
    sym (
        with_removals-run (λ t. t.pc) (send_step sys) (freebsd_send_step sys) send-same send-kept s
          rs (λ f. calling_ne-deleting (sym e ∙ f))),
    sym (
        with_removals-run (λ pc. pc) (accept_step sys) (freebsd_accept_step sys) accept-same
          accept-kept calling rs calling_ne-deleting),
  )
