-- ===== src/Net/Service/Freebsd.antt =====
-- `create` and `interrupt` of src/ice/src/ice/net/service.cpp for FreeBSD. A round of `run` is that of
-- Net/Service, over what `kevent` gives.
use ice_coroutines.Base.{ℕ, ◌+◌, Bool, not, Option, none, some, ◌∷◌, if◌then◌else◌, ◌≡◌, arith}
use ice_coroutines.Error.{ErrorCode, no_error, of_errno}
use ice_coroutines.Net.Service.{Service, close}
use ice_coroutines.Net.Service.Ownership.{holds, accounted}

-- What `kqueue` returns, `none` for -1, and whether the two calls of `kevent` fail, each with the
-- `errno` of a failure.
pub record Calls : Type 0 where
  pub created : Option ℕ
  pub added : Bool
  pub triggered : Bool
  pub errno : ℕ

-- `interrupt`.
unfoldable pub interrupt : Calls → ErrorCode
interrupt c = if not c.triggered then of_errno c.errno else no_error

unfoldable pub create : Calls → Service → ErrorCode × Service
unfolding interrupt
create c s = elim c.created [
  | none ↦ (of_errno c.errno, s)
  | some h ↦
      if not c.added
      then (of_errno c.errno, record s { closed = h ∷ s.closed })
      else (interrupt c, record s { handle = some h; closed = close s.handle s.closed })
]

-- Whichever of its calls fails, `create` for FreeBSD loses no handle and closes none twice.
pub create-created :
    (c : Calls) (s : Service) (h : ℕ)
    → accounted h (create c s).1 ≡ accounted h s + holds h c.created
unfolding create accounted
create-created c s h = ground arith
