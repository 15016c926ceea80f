-- ===== src/Base.antt =====
-- The names the other modules share: the libraries', passed on, and those of the children.
mod Tests
mod Lists
mod Results
mod Texts
pub mod Spaces
pub mod Ids
pub mod Maps
pub mod Integers
pub mod Bits
pub mod Scan
pub mod Decimals
pub use Tests.*
pub use Lists.*
pub use Results.*
pub use Texts.{Bytes, decimal, IsBytes, text, text_eq_iff, text_eq_refl}
unfoldable pub use Texts.{text_eq}
pub use Prim.Native.Nat.{ℕ, zero, suc, ◌+◌, ◌-◌, ◌*◌, ◌/◌, ◌%◌, ◌^◌, ◌≤◌, ◌<◌}
pub use mathlib.Core.Path.{◌≡◌, refl, sym, ap, ◌∙◌}
pub use mathlib.Core.Logic.{◌≢◌, ◌↔◌, ◌⊎◌, inl, inr}
pub use mathlib.Core.Bool.{Bool, true, false, not, ◌&&◌, ◌||◌}
pub use mathlib.Core.Option.{Option, none, some}
pub use mathlib.Core.List.{List, [], ◌∷◌, ◌++◌, map}
pub use mathlib.Core.List.{append-nil, append_assoc, reverse, reverse-append, reverse-reverse}
pub use native.Mathlib.Omega.{arith}
