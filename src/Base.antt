-- ===== src/Base.antt =====
-- The names that the components share: the libraries', passed on, and those of the children.
mod Tests
mod Lists
mod Int
mod Coroutine
mod Text
mod Maybe
mod Range
mod Delivery
pub use Tests.*
pub use Delivery.*
pub use Maybe.*
pub use Lists.*
pub use Int.*
unfoldable pub use Coroutine.*
unfoldable pub use Range.*
unfoldable pub use Text.*
pub use Prim.Native.Nat.{ℕ, zero, suc, ◌+◌, ◌-◌, ◌*◌, ◌/◌, ◌%◌, ◌^◌, ◌≤◌, ◌<◌, bit_and, bit_or}
pub use Prim.Native.String.{String}
pub use mathlib.Core.Path.{◌≡◌, refl, sym, ap, subst, ◌∙◌, fun_ext}
pub use mathlib.Core.Logic.{◌≢◌, ◌↔◌, ◌⊎◌, inl, inr}
pub use mathlib.Core.Bool.{Bool, true, false, not, ◌&&◌, ◌||◌}
pub use mathlib.Core.Option.{Option, none, some}
pub use mathlib.Core.List.{
  Mem, not-mem-nil, mem-cons_self, mem-cons_of_mem, Subset, Subset-refl, Subset-trans, nil-subset,
  cons-subset, subset-append_left, subset-append_right, List, [], ◌∷◌, ◌++◌, map, reverse,
  append-nil, append_assoc, map-append, reverse-append, reverse-reverse,
}
pub use native.Mathlib.Omega.{arith}
