-- ===== src/Base.antt =====
-- What the other modules share: names of the libraries, passed on, and the children's helpers.
mod Tests
mod Lists
mod Words
mod Results
mod Signed
pub use Tests.*
unfoldable pub use Tests.{str_eq}
pub use Lists.*
pub use Words.*
pub use Results.*
pub use Signed.*
unfoldable pub use Signed.{◌+ℤ◌, ◌-ℤ◌, to_int, to_ulong}
pub use Prim.Native.Nat.{ℕ, zero, suc, ◌+◌, ◌-◌, ◌*◌, ◌/◌, ◌%◌, ◌^◌, ◌≤◌, ◌<◌}
pub use mathlib.Core.Path.{◌≡◌, refl, sym, ap, ◌∙◌}
pub use mathlib.Core.Logic.{◌≢◌, ◌↔◌, ◌⊎◌, inl, inr}
pub use mathlib.Core.Bool.{Bool, true, false, not, ◌&&◌, ◌||◌}
pub use mathlib.Core.Option.{Option, none, some}
pub use mathlib.Core.List.{List, [], ◌∷◌, ◌++◌, map}
pub use native.Mathlib.Omega.{arith}
