-- ===== src/Ssh/Errors/Laws.antt =====
-- What the texts of the category `ssh` say of the numbers of libssh2.
use Prim.Native.String
use ice_coroutines.Base.{
  ℕ, zero, suc, ℤ, ◌==◌, ==_iff, ◌≡◌, ◌≢◌, refl, sym, ap, ◌∙◌, Bool, true, String, List, [], ◌∷◌,
  map, All, ◌⊎◌, inl, inr,
}
use ice_coroutines.Error.Table.{first_text_cases, has, has-present}
use ice_coroutines.Ssh.Errors.{
  Status, statuses, status_text, rows, ssh_message, socket_none, banner_recv, banner_send,
  invalid_mac, kex_failure, alloc, socket_send, key_exchange_failure, timeout, hostkey_init,
  hostkey_sign, decrypt, socket_disconnect, proto, password_expired, file, method_none,
  authentication_failed, publickey_unrecognized, publickey_unverified, channel_outoforder,
  channel_failure, channel_request_denied, channel_unknown, channel_window_exceeded,
  channel_packet_exceeded, channel_closed, channel_eof_sent, scp_protocol, zlib, socket_timeout,
  sftp_protocol, request_denied, method_not_supported, inval, invalid_poll_type, publickey_protocol,
  eagain, buffer_too_small, bad_use, compress, out_of_boundary, agent_protocol, socket_recv,
  encrypt, bad_socket, known_hosts,
}

-- A number for each status, by which they are told apart.
abbrev ordinal : Status → ℕ
ordinal socket_none = 0
ordinal banner_recv = 1
ordinal banner_send = 2
ordinal invalid_mac = 3
ordinal kex_failure = 4
ordinal alloc = 5
ordinal socket_send = 6
ordinal key_exchange_failure = 7
ordinal timeout = 8
ordinal hostkey_init = 9
ordinal hostkey_sign = 10
ordinal decrypt = 11
ordinal socket_disconnect = 12
ordinal proto = 13
ordinal password_expired = 14
ordinal file = 15
ordinal method_none = 16
ordinal authentication_failed = 17
ordinal publickey_unrecognized = 18
ordinal publickey_unverified = 19
ordinal channel_outoforder = 20
ordinal channel_failure = 21
ordinal channel_request_denied = 22
ordinal channel_unknown = 23
ordinal channel_window_exceeded = 24
ordinal channel_packet_exceeded = 25
ordinal channel_closed = 26
ordinal channel_eof_sent = 27
ordinal scp_protocol = 28
ordinal zlib = 29
ordinal socket_timeout = 30
ordinal sftp_protocol = 31
ordinal request_denied = 32
ordinal method_not_supported = 33
ordinal inval = 34
ordinal invalid_poll_type = 35
ordinal publickey_protocol = 36
ordinal eagain = 37
ordinal buffer_too_small = 38
ordinal bad_use = 39
ordinal compress = 40
ordinal out_of_boundary = 41
ordinal agent_protocol = 42
ordinal socket_recv = 43
ordinal encrypt = 44
ordinal bad_socket = 45
ordinal known_hosts = 46

entry_at : ℕ → List Status → Status
entry_at n [] = socket_none
entry_at zero (s ∷ ss) = s
entry_at (suc n) (s ∷ ss) = entry_at n ss

entry_at-ordinal : (s : Status) → entry_at (ordinal s) statuses ≡ s
unfolding entry_at
entry_at-ordinal socket_none = refl
entry_at-ordinal _ = refl

abbrev same : Status → Status → Bool
same a b = ordinal a == ordinal b

same_sound : (a b : Status) → same a b ≡ true → a ≡ b
same_sound a b h =
    sym (entry_at-ordinal a)
    ∙ ap (λ n. entry_at n statuses) ((==_iff (ordinal a) (ordinal b)).0 h)
    ∙ entry_at-ordinal b

has-same : (a : Status) → has (same a) rows ≡ true
unfolding has
has-same socket_none = refl
has-same _ = refl

texts :
    (ss : List Status)
    → All (λ (p : Status × String). p.1 ≡ status_text p.0) (map (λ s. (s, status_text s)) ss)
texts [] = tt
texts (s ∷ ss) = (refl, texts ss)

-- Whatever numbers libssh2 has, the message for a number is the text of a status with that number, or
-- no status has the number and the message is "error " with the number behind it.
pub ssh_message_cases :
    (value : Status → ℤ) (to_string : ℤ → String) (code : ℤ)
    → ((s : Status) × (value s ≡ code) × (ssh_message value to_string code ≡ status_text s))
      ⊎ (((s : Status) → code ≢ value s)
          × (ssh_message value to_string code ≡ String.◌++◌ "error " (to_string code)))
unfolding ssh_message
ssh_message_cases value to_string code =
    elim (first_text_cases value (λ s t. t ≡ status_text s) code rows
      (String.◌++◌ "error " (to_string code)) (texts statuses)) [
        | inl found ↦ inl found
        | inr (absent, last) ↦
            inr
              (λ s. has-present value (same s) s code rows (same_sound s) (has-same s) absent, last)
      ]
