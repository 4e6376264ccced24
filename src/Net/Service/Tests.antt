-- ===== src/Net/Service/Tests.antt =====
-- A service that gets its second schedule and a stop while it resumes the first.
use ice_coroutines.Base.{true, false, some, [], ◌∷◌, ◌++◌, ◌⊎◌, ◌≡◌, ◌≢◌, refl}
use ice_coroutines.Net.Service.{timeout}
use ice_coroutines.Net.Service.Delivery.{
  System, entered, polling, Trace, start, next, post, set_stop, interrupt, poll_interrupt,
  load_stop, acquire, resume, finish,
}
use ice_coroutines.Net.Service.Delivery.Laws.{held, delivered-posted, polling-armed}

abbrev asked : System
asked = record {
  queue = 8 ∷ [];
  stop_flag = true;
  stop = false;
  armed = true;
  running = polling;
  notices = 0;
  refused = false;
  posted = 7 ∷ 8 ∷ [];
  resumed = 7 ∷ [];
}

entered-asked : Trace entered asked
entered-asked =
    next
      (next
        (next
          (next
            (next
              (next
                (next
                  (next
                    (next (next (next start (post 7)) (interrupt 0 refl))
                      (poll_interrupt refl refl))
                    (load_stop refl))
                  (acquire refl))
                (post 8))
              (resume 7 [] refl))
            (set_stop true))
          (finish refl))
        (interrupt 1 refl))
      (interrupt 0 refl)

delivered-posted_example : asked.resumed ++ (held asked.running ++ asked.queue) ≡ asked.posted
delivered-posted_example = delivered-posted asked entered-asked

polling-armed_example :
    (asked.queue ≢ [] → asked.armed ≡ true)
    × (asked.stop_flag ≡ true → (asked.armed ≡ true) ⊎ (timeout asked.stop ≡ some 1))
polling-armed_example = polling-armed asked entered-asked refl refl refl
