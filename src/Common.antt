-- ===== src/Common.antt =====
-- The names that the other modules share: those of the libraries, passed on, and those of three
-- children (tests on numbers, lists over the native numbers, waiting on a condition).
mod Tests
mod Lists
mod Wait
pub mod Int
pub use Tests.*
pub use Lists.*
unfoldable pub use Wait.{wait_while}
pub use Wait.{
  wait_while-nil, wait_while-of_false, wait_while-of_true, wait_while_inv, wait_while_ends,
}
pub use Prim.Native.Nat.{ℕ, zero, suc, ◌+◌, ◌-◌, ◌*◌, ◌/◌, ◌%◌, ◌^◌, ◌≤◌, ◌<◌, min, max}
pub use mathlib.Core.Path.{◌≡◌, refl, sym, ap, ap₂, ◌∙◌, subst}
pub use mathlib.Core.Logic.{◌≢◌, ◌↔◌, ◌⊎◌, inl, inr}
pub use mathlib.Core.Bool.{Bool, true, false, not, ◌&&◌, ◌||◌}
pub use mathlib.Core.Option.{Option, none, some}
pub use mathlib.Core.List.{List, [], ◌∷◌, ◌++◌, map, append-nil, append_assoc}
pub use native.Mathlib.Omega.{arith}
