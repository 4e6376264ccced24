-- ===== src/Ssh/Tests.antt =====
-- A session whose handshake fails, one that is moved, and runs of the loops.
use ice_coroutines.Base.{
  ◌+◌, ◌==◌, pos, negsuc, false, none, some, [], ◌∷◌, ◌++◌, ◌≡◌, refl, arith, returned, run,
  if◌then◌else◌,
}
use ice_coroutines.Error.{no_error, is_error, of_errno}
use ice_coroutines.Ssh.Calls.{ssh_error, native_error, send_step, login_step}
use ice_coroutines.Ssh.Calls.Laws.{
  eagain, waits, writes, again, refuses, rounds, ending, sending, channel_send_lem,
}
use ice_coroutines.Ssh.Calls.Authenticate.{
  granted, outcome, authenticating, logging, answers, login_step_lem,
}
use ice_coroutines.Ssh.Session
use ice_coroutines.Ssh.Session.{Session, is_open, Calls, connect, disconnect, fell_off}
use ice_coroutines.Ssh.Session.Laws.{accounted, opened, connect-accounted}
use ice_coroutines.Ssh.Session.Moves.{Objects, IsOwned, move_assign, move_construct, move-IsOwned}

channel_send_lem_example :
    run
      (send_step (eagain 36))
      (sending 36 10 no_error 10)
      (rounds 36 (writes 4 ∷ again (of_errno 9) ∷ writes 3 ∷ []) ++ (ending 36 (refuses 6) ++ []))
    ≡ returned (record { count = 7; ec = native_error (negsuc 6) }) []
channel_send_lem_example =
    channel_send_lem 36 10 no_error (writes 4 ∷ again (of_errno 9) ∷ writes 3 ∷ []) (refuses 6) []
      (ground arith, (tt, (ground arith, tt))) (ground arith) (ground arith) (ground arith)

login_step_lem_example :
    run
      (login_step (eagain 36))
      (authenticating 36 [])
      (logging (waits 36 (no_error ∷ [])) ++ (answers 36 (granted (no_error ∷ []) 5) ++ []))
    ≡ returned (outcome [] (granted (no_error ∷ []) 5)) []
login_step_lem_example = login_step_lem 36 [] (no_error ∷ []) (granted (no_error ∷ []) 5) [] tt

abbrev connected : Session
connected = record {
  socket_handle = some 3;
  session_handle = some 4;
  channel_handle = some 5;
  closed = [];
}

abbrev failing : Calls
failing = record {
  library = no_error;
  opened_socket = some 6;
  errno = 0;
  opened_session = some 7;
  flag = pos 0;
  connected = no_error;
  handshake = ssh_error (negsuc 4);
}

connect-accounted_example :
    accounted (Session.session 7) (connect (negsuc 5) failing connected).1
    ≡ accounted (Session.session 7) connected + opened (Session.session 7) failing
connect-accounted_example = connect-accounted (negsuc 5) failing connected (Session.session 7)

no_error-false : is_error no_error ≡ false
no_error-false = ground arith

-- Two objects, of which the second is connected.
abbrev unconnected : Session
unconnected = record {
  socket_handle = none;
  session_handle = none;
  channel_handle = none;
  closed = [];
}

abbrev objects : Objects
objects = record { object = λ p. if p == 1 then connected else unconnected; abstract = λ h. 1 }

objects-IsOwned : IsOwned objects
objects-IsOwned = record { owner = λ p h e. ground arith }

move-IsOwned_example :
    ((m' : Objects) × (move_assign 0 1 objects ≡ some m') × IsOwned m' × (m'.abstract 4 ≡ 0))
    × ((m' : Objects) × (move_construct 0 1 objects ≡ some m') × IsOwned m' × (m'.abstract 4 ≡ 0))
move-IsOwned_example = move-IsOwned 0 1 4 objects (ground arith) refl objects-IsOwned
