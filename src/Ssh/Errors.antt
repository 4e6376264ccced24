-- ===== src/Ssh/Errors.antt =====
-- The category of src/ssh/src/ice/net/ssh/error.cpp. The numbers of libssh2 are a parameter, and so is
-- `std::to_string`.
pub mod Laws
use Prim.Native.String
use ice_coroutines.Base.{ℕ, ℤ, String, List, [], ◌∷◌, map}
use ice_coroutines.Error.Table.{first_text}

-- The constants `LIBSSH2_ERROR_...` that the category names.
pub data Status : Type 0 where
  socket_none banner_recv banner_send invalid_mac kex_failure alloc socket_send : Status
  key_exchange_failure timeout hostkey_init hostkey_sign decrypt socket_disconnect proto : Status
  password_expired file method_none authentication_failed publickey_unrecognized : Status
  publickey_unverified channel_outoforder channel_failure channel_request_denied : Status
  channel_unknown channel_window_exceeded channel_packet_exceeded channel_closed : Status
  channel_eof_sent scp_protocol zlib socket_timeout sftp_protocol request_denied : Status
  method_not_supported inval invalid_poll_type publickey_protocol eagain buffer_too_small : Status
  bad_use compress out_of_boundary agent_protocol socket_recv encrypt bad_socket known_hosts :
      Status

-- The labels of the `switch` in their order. `publickey_unrecognized` is left out where it is the
-- number of `authentication_failed`, whose label comes first.
abbrev pub statuses : List Status
statuses =
    socket_none ∷ banner_recv ∷ banner_send ∷ invalid_mac ∷ kex_failure ∷ alloc ∷ socket_send
    ∷ key_exchange_failure ∷ timeout ∷ hostkey_init ∷ hostkey_sign ∷ decrypt ∷ socket_disconnect
    ∷ proto ∷ password_expired ∷ file ∷ method_none ∷ authentication_failed ∷ publickey_unrecognized
    ∷ publickey_unverified ∷ channel_outoforder ∷ channel_failure ∷ channel_request_denied
    ∷ channel_unknown ∷ channel_window_exceeded ∷ channel_packet_exceeded ∷ channel_closed
    ∷ channel_eof_sent ∷ scp_protocol ∷ zlib ∷ socket_timeout ∷ sftp_protocol ∷ request_denied
    ∷ method_not_supported ∷ inval ∷ invalid_poll_type ∷ publickey_protocol ∷ eagain
    ∷ buffer_too_small ∷ bad_use ∷ compress ∷ out_of_boundary ∷ agent_protocol ∷ socket_recv
    ∷ encrypt ∷ bad_socket ∷ known_hosts ∷ []

abbrev pub status_text : Status → String
status_text socket_none = "no socket"
status_text banner_recv = "recv banner"
status_text banner_send = "send banner"
status_text invalid_mac = "invalid_mac"
status_text kex_failure = "kex_failure"
status_text alloc = "bad alloc"
status_text socket_send = "socket send error"
status_text key_exchange_failure = "key exchange error"
status_text timeout = "timeout"
status_text hostkey_init = "hostkey init error"
status_text hostkey_sign = "hostkey sign error"
status_text decrypt = "decrypt error"
status_text socket_disconnect = "socket disconnected"
status_text proto = "protocol error"
status_text password_expired = "password expired"
status_text file = "file error"
status_text method_none = "missing method"
status_text authentication_failed = "authentication failed"
status_text publickey_unrecognized = "publickey unrecognized"
status_text publickey_unverified = "publickey unverified"
status_text channel_outoforder = "channel out of order"
status_text channel_failure = "channel error"
status_text channel_request_denied = "channel request denied"
status_text channel_unknown = "channel unknown"
status_text channel_window_exceeded = "channel window exceeded"
status_text channel_packet_exceeded = "channel packet exceeded"
status_text channel_closed = "channel closed"
status_text channel_eof_sent = "channel eof sent"
status_text scp_protocol = "scp protocol error"
status_text zlib = "zlib error"
status_text socket_timeout = "socket timeout"
status_text sftp_protocol = "sftp protocol error"
status_text request_denied = "request denied"
status_text method_not_supported = "method not supported"
status_text inval = "invalid"
status_text invalid_poll_type = "invalid poll type"
status_text publickey_protocol = "publickey protocol error"
status_text eagain = "eagain"
status_text buffer_too_small = "buffer too small"
status_text bad_use = "bad use"
status_text compress = "compress error"
status_text out_of_boundary = "out of boundary"
status_text agent_protocol = "agent protocol"
status_text socket_recv = "socket recv error"
status_text encrypt = "encrypt error"
status_text bad_socket = "bad socket"
status_text known_hosts = "known hosts"

abbrev pub rows : List (Status × String)
rows = map (λ s. (s, status_text s)) statuses

-- `domain_category::message`.
unfoldable pub ssh_message : (Status → ℤ) → (ℤ → String) → ℤ → String
unfolding first_text
ssh_message value to_string code =
    first_text value code rows (String.◌++◌ "error " (to_string code))
