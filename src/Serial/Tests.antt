-- ===== src/Serial/Tests.antt =====
-- A port whose settings are refused, and one that is not there.
use ice_coroutines.Base.{◌+◌, pos, some, [], ◌∷◌, Bytes, ◌≡◌, ◌⊎◌}
use ice_coroutines.Error.{no_error}
use ice_coroutines.Net.Overlapped.{Reply, done, failed}
use ice_coroutines.Serial.{Call, set_state, Serial, create}
use ice_coroutines.Serial.Laws.{accounted, opened, port-accounted}

abbrev port : Serial
port = record { handle = some 4; closed = [] }

abbrev com3 : Bytes
com3 = b'C' ∷ b'O' ∷ b'M' ∷ b'3' ∷ []

abbrev refusing : Call → Reply
refusing set_state = failed 87
refusing _ = done 1

port-accounted_example :
    let (ec, s') = create (λ e. pos 22) com3 (record { value = 9; last_error = 0 }) refusing port in
    (accounted 9 s' ≡ accounted 9 port + opened 9 com3 (record { value = 9; last_error = 0 }))
    × ((ec ≡ no_error) ⊎ (s'.handle ≡ port.handle))
port-accounted_example =
    port-accounted (λ e. pos 22) com3 (record { value = 9; last_error = 0 }) refusing port 9
