-- ===== src/Net/Service/Systems.antt =====
-- `create` on the three systems.
use ice_coroutines.Base.{ℕ, ◌+◌, ◌≡◌}
use ice_coroutines.Net.Service.{Service}
use ice_coroutines.Net.Service
use ice_coroutines.Net.Service.Ownership
use ice_coroutines.Net.Service.Ownership.{holds, accounted}
use ice_coroutines.Net.Service.Windows
use ice_coroutines.Net.Service.Windows.Laws
use ice_coroutines.Net.Service.Freebsd

-- Whichever of its calls fails, `create` loses no handle and closes none twice, on Linux, Windows and
-- FreeBSD: each handle that it opens and each that the service had is afterwards a member of the
-- service or closed, once.
pub services-accounted :
    (c : Service.Calls) (w : Windows.Calls) (b : Freebsd.Calls) (s : Service) (h : ℕ)
    → (accounted h (Service.create c s).1 ≡ accounted h s + Ownership.opened h c)
      × (accounted h (Windows.create w s).1 ≡ accounted h s + Laws.opened h w)
      × (accounted h (Freebsd.create b s).1 ≡ accounted h s + holds h b.created)
services-accounted c w b s h =
    (Ownership.create-accounted c s h, Laws.create-accounted w s h, Freebsd.create-created b s h)
