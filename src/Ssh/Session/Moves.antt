-- ===== src/Ssh/Session/Moves.antt =====
-- The move constructor and the move assignment of `session`: several session objects, and for each
-- session of libssh2 the object that its callbacks are given.
use ice_coroutines.Base.{ℕ, ◌==◌, Option, none, some, [], if◌then◌else◌, ◌≡◌, ◌≢◌, ◌∙◌, arith}
use ice_coroutines.Ssh.Session.{socket, session, channel, Session, drop_handle}

-- The objects by their addresses, and `*libssh2_session_abstract(session)`.
pub record Objects : Type 0 where
  pub object : ℕ → Session
  pub abstract : ℕ → ℕ

abbrev pub put : (ℕ → Session) → ℕ → Session → ℕ → Session
put f p s q = if p == q then s else f q

-- The move assignments of the three handles, each of which closes what the target had.
unfoldable pub move_socket : ℕ → ℕ → (ℕ → Session) → ℕ → Session
move_socket this other f =
    let taken = (f other).socket_handle in
    let g = put f other (record (f other) { socket_handle = none }) in
    put g this (record (g this) {
      socket_handle = taken;
      closed = drop_handle socket (g this).socket_handle (g this).closed;
    })

unfoldable pub move_session : ℕ → ℕ → (ℕ → Session) → ℕ → Session
move_session this other f =
    let taken = (f other).session_handle in
    let g = put f other (record (f other) { session_handle = none }) in
    put g this (record (g this) {
      session_handle = taken;
      closed = drop_handle session (g this).session_handle (g this).closed;
    })

unfoldable pub move_channel : ℕ → ℕ → (ℕ → Session) → ℕ → Session
move_channel this other f =
    let taken = (f other).channel_handle in
    let g = put f other (record (f other) { channel_handle = none }) in
    put g this (record (g this) {
      channel_handle = taken;
      closed = drop_handle channel (g this).channel_handle (g this).closed;
    })

-- `*libssh2_session_abstract(session_) = this`; libssh2 has no such pointer for no session.
unfoldable pub point : ℕ → Objects → Option Objects
point this m = elim ((m.object this).session_handle) [
  | none ↦ none
  | some h ↦ some (record m { abstract = λ k. if h == k then this else m.abstract k })
]

-- `operator=(session&& other)`.
unfoldable pub move_assign : ℕ → ℕ → Objects → Option Objects
unfolding move_socket move_session move_channel point
move_assign this other m = point this (record m {
  object = move_channel this other (move_session this other (move_socket this other m.object));
})

-- `session(session&& other)`, for a new object.
unfoldable pub transferred : ℕ → ℕ → (ℕ → Session) → ℕ → Session
transferred this other f =
    let g =
      put f other
        (record (f other) { socket_handle = none; session_handle = none; channel_handle = none }) in
    put g this (record (f other) { closed = [] })

unfoldable pub move_construct : ℕ → ℕ → Objects → Option Objects
unfolding transferred point
move_construct this other m = point this (record m { object = transferred this other m.object })

-- The callbacks of a session get the object that holds the session.
pub record IsOwned (m : Objects) : Type 0 where
  pub owner : (p h : ℕ) → (m.object p).session_handle ≡ some h → m.abstract h ≡ p

-- Who holds which session after a move.
abbrev passed : ℕ → ℕ → (ℕ → Session) → ℕ → Option ℕ
passed this other f q =
    if this == q
    then (f other).session_handle
    else if other == q
    then none
    else (f q).session_handle

module _ (this other : ℕ) (f : ℕ → Session) where
  move_socket-session : (q : ℕ) → (move_socket this other f q).session_handle ≡ (f q).session_handle
  unfolding move_socket
  move_socket-session q = ground arith

  move_channel-session :
      (q : ℕ) → (move_channel this other f q).session_handle ≡ (f q).session_handle
  unfolding move_channel
  move_channel-session q = ground arith

  move_session_lem :
      this ≢ other → (q : ℕ) → (move_session this other f q).session_handle ≡ passed this other f q
  unfolding move_session
  move_session_lem apart q = ground arith

moved :
    (this other : ℕ) (f : ℕ → Session)
    → this ≢ other
    → (q : ℕ)
    → (move_channel this other
        (move_session this other (move_socket this other f))
        q).session_handle
      ≡ passed this other f q
moved this other f apart q =
    let g = move_socket this other f in
    move_channel-session this other (move_session this other g) q
    ∙ move_session_lem this other g apart q
    ∙ ground (arith, move_socket-session this other f other, move_socket-session this other f q)

transferred-session :
    (this other : ℕ) (f : ℕ → Session)
    → this ≢ other
    → (q : ℕ) → (transferred this other f q).session_handle ≡ passed this other f q
unfolding transferred
transferred-session this other f apart q = ground arith

-- An object that has taken over the session of another is the one that its callbacks get.
point-IsOwned :
    (this other h : ℕ) (m : Objects) (f : ℕ → Session)
    → this ≢ other
    → (m.object other).session_handle ≡ some h
    → IsOwned m
    → ((q : ℕ) → (f q).session_handle ≡ passed this other m.object q)
    → (m' : Objects) × (point this (record m { object = f }) ≡ some m')
      × IsOwned m'
      × (m'.abstract h ≡ this)
unfolding point
point-IsOwned this other h m f apart e owned p = (
  record { object = f; abstract = λ k. if h == k then this else m.abstract k },
  ground (arith, p this),
  record { owner = λ q k s. ground (arith, p q, owned.owner q k, owned.owner other h) },
  ground arith,
)

-- Moving a connected session into another object, by assignment or into a new one, keeps the
-- callbacks of every session on the object that holds it, that of the session moved on its new one.
pub move-IsOwned :
    (this other h : ℕ) (m : Objects)
    → this ≢ other
    → (m.object other).session_handle ≡ some h
    → IsOwned m
    → ((m' : Objects) × (move_assign this other m ≡ some m') × IsOwned m' × (m'.abstract h ≡ this))
      × ((m' : Objects) × (move_construct this other m ≡ some m')
          × IsOwned m'
          × (m'.abstract h ≡ this))
unfolding move_assign move_construct
move-IsOwned this other h m apart e owned = (
  point-IsOwned this other h m _ apart e owned (moved this other m.object apart),
  point-IsOwned this other h m (transferred this other m.object) apart e owned
      (transferred-session this other m.object apart),
)

-- Moving a session object that is not connected asks libssh2 for the callback pointer of no session:
-- neither move has a defined outcome.
pub move-none :
    (this other : ℕ) (m : Objects)
    → this ≢ other
    → (m.object other).session_handle ≡ none
    → (move_assign this other m ≡ none) × (move_construct this other m ≡ none)
unfolding move_assign move_construct point
move-none this other m apart e = (
  ground (arith, moved this other m.object apart this),
  ground (arith, transferred-session this other m.object apart this),
)
