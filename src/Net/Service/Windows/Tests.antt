-- ===== src/Net/Service/Windows/Tests.antt =====
-- A schedule is posted, and the service stops.
use ice_coroutines.Base.{false, [], ◌++◌, ◌≡◌, refl}
use ice_coroutines.Net.Service.Windows.{
  polling, System, entered, Trace, start, next, post, interrupts, dequeue, load_stop, acquire,
  resume, finish_process,
}
use ice_coroutines.Net.Service.Windows.Laws.{held, windows-delivers}

delivered : (m : System) × Trace entered m
delivered = (
  _,
  next
      (next
        (next
          (next (next (next (next start (post 5)) (interrupts 0 refl)) (dequeue 1 0 refl refl))
            (load_stop refl))
          (acquire refl))
        (resume 5 [] refl))
      (finish_process refl),
)

windows-delivers_example :
    (delivered.0.resumed ++ (held delivered.0.running ++ delivered.0.queue) ≡ delivered.0.posted)
    × (delivered.0.running ≡ polling
        → delivered.0.packets ≡ 0
        → delivered.0.notices ≡ 0
        → delivered.0.refused ≡ false
        → delivered.0.resumed ≡ delivered.0.posted)
windows-delivers_example = windows-delivers delivered.0 delivered.1
