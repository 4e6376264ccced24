-- ===== src/Net/Service/Ownership.antt =====
-- What `create` does with the handles that it opens and with those that the service had.
use ice_coroutines.Base.{ℕ, ◌+◌, ◌==◌, Option, none, some, List, [], ◌∷◌, if◌then◌else◌, ◌≡◌, arith}
use ice_coroutines.Net.Service.{Calls, Service, create}

abbrev pub hit : ℕ → ℕ → ℕ
hit h k = if h == k then 1 else 0

abbrev pub holds : ℕ → Option ℕ → ℕ
holds h none = 0
holds h (some k) = hit h k

abbrev pub count : ℕ → List ℕ → ℕ
count h [] = 0
count h (k ∷ ks) = hit h k + count h ks

-- How often a handle is a member of the service or has been closed.
unfoldable pub accounted : ℕ → Service → ℕ
accounted h s = holds h s.handle + holds h s.events + count h s.closed

-- The handles that a run of `create` opens: it asks for the second only once it has the first.
unfoldable pub opened : ℕ → Calls → ℕ
opened h c = elim c.created [ none ↦ 0 | some k ↦ hit h k + holds h c.eventfd ]

-- `create` for Linux keeps account of every handle.
pub create-accounted :
    (c : Calls) (s : Service) (h : ℕ) → accounted h (create c s).1 ≡ accounted h s + opened h c
unfolding create accounted opened
create-accounted c s h = ground arith
