-- ===== src/Prelude.antt =====
-- The names that the modules share: the libraries', passed on, and those of the children.
-- A byte is a number below 256, and a buffer, blob or string of the program a list of bytes.
mod Tests
mod Lists
mod Order
pub mod Bits
unfoldable pub use Tests.*
unfoldable pub use Lists.*
pub use Order.{le-or-lt}
unfoldable pub use Order.{lt_wf}
pub use Prim.Native.Nat.{ℕ, zero, suc, ◌+◌, ◌-◌, ◌*◌, ◌/◌, ◌%◌, ◌^◌, ◌≤◌, ◌<◌, bit_and, bit_or}
pub use mathlib.Core.Path.{◌≡◌, refl, sym, ap, ◌∙◌}
pub use mathlib.Core.Logic.{◌≢◌, ◌↔◌, ◌⊎◌, inl, inr}
pub use mathlib.Core.Bool.{Bool, true, false, not, ◌&&◌, ◌||◌}
pub use mathlib.Core.Option.{Option, none, some}
pub use mathlib.Core.List.{
  List, [], ◌∷◌, ◌++◌, map, append_assoc, append-nil, reverse, reverse-cons, reverse-reverse,
}
pub use native.Mathlib.Omega.{arith}
