-- ===== src/Ssh/Session/Laws.antt =====
-- What `connect`, `disconnect` and `close` do with the handles.
use ice_coroutines.Base.{
  ℕ, ◌+◌, ◌==◌, ℤ, false, Option, none, some, List, [], ◌∷◌, if◌then◌else◌, ◌≡◌, arith,
}
use ice_coroutines.Error.{ErrorCode, is_error}
use ice_coroutines.Ssh.Session.{
  Resource, socket, session, channel, Session, is_open, close, Calls, connect, fell_off, disconnect,
}

-- Whether two resources are the same, as a count.
unfoldable pub hit : Resource → Resource → ℕ
hit (socket a) (socket b) = if a == b then 1 else 0
hit (session a) (session b) = if a == b then 1 else 0
hit (channel a) (channel b) = if a == b then 1 else 0
hit _ _ = 0

unfoldable pub holds : Resource → (ℕ → Resource) → Option ℕ → ℕ
holds r kind none = 0
holds r kind (some h) = hit r (kind h)

unfoldable pub count : Resource → List Resource → ℕ
count r [] = 0
count r (k ∷ ks) = hit r k + count r ks

-- How often a resource is held by the session or has been closed.
unfoldable pub accounted : Resource → Session → ℕ
unfolding holds count
accounted r s =
    holds r socket s.socket_handle
    + (holds r session s.session_handle + (holds r channel s.channel_handle + count r s.closed))

-- What a run of `connect` opens: nothing without the library, and a session only behind a socket.
unfoldable pub opened : Resource → Calls → ℕ
unfolding holds
opened r c = if is_error c.library then 0 else elim c.opened_socket [
  | none ↦ 0
  | some k ↦ hit r (socket k) + holds r session c.opened_session
]

close-accounted : (r : Resource) (s : Session) → accounted r (close s) ≡ accounted r s
unfolding close accounted
close-accounted r s = ground arith

-- Whichever of its calls fails, `connect` loses no socket, session or channel and closes none twice:
-- what it opens and what the session had are afterwards held by the session or closed, once.
pub connect-accounted :
    (error_alloc : ℤ) (c : Calls) (s : Session) (r : Resource)
    → accounted r (connect error_alloc c s).1 ≡ accounted r s + opened r c
unfolding connect accounted opened close
connect-accounted error_alloc c s r = ground arith

-- Where `disconnect` runs into no error it runs off its end, with no value to return; all that the
-- session held has been closed, once, and it is not open any more.
pub disconnect-accounted :
    (channel_ec session_ec : ErrorCode) (s : Session) (r : Resource)
    → is_error channel_ec ≡ false
    → is_error session_ec ≡ false
    → let d = disconnect channel_ec session_ec s in
      (d.0 ≡ fell_off) × (is_open d.1 ≡ false) × (accounted r d.1 ≡ accounted r s)
unfolding disconnect accounted is_open
disconnect-accounted channel_ec session_ec s r e f = (ground arith, ground arith, ground arith)
