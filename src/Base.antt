-- ===== src/Base.antt =====
-- The names that the other modules share: the libraries', passed on, and those of the children.
mod Tests
mod Lists
mod Failure
pub mod Text
pub mod Table
pub use Tests.*
pub use Lists.*
unfoldable pub use Failure.{◌>>=◌, ◌>>◌, guard, or_fail}
pub use Failure.{
  Result, ok, err, Ensures, returns, fails, Ensures-guard, Ensures-or_fail, Ensures-bind,
  Ensures-map, Ensures_elim, or_fail-eq-ok, Ensures-both, guard->>-eq-ok, guard-pass, guard-stop,
  >>=-eq-ok, >>-eq-ok, Ensures-then, Ensures-do, or_fail-pass, >>=-pass, Ensures-self, guard-eq-ok,
}
pub use Prim.Native.Nat.{ℕ, zero, suc, ◌+◌, ◌-◌, ◌*◌, ◌/◌, ◌%◌, ◌^◌, ◌≤◌, ◌<◌}
pub use mathlib.Core.Path.{◌≡◌, refl, sym, ap, ◌∙◌, subst}
pub use mathlib.Core.Logic.{◌≢◌, ◌↔◌, ◌⊎◌, inl, inr}
pub use mathlib.Core.Bool.{Bool, true, false, ◌&&◌, ◌||◌, not}
pub use mathlib.Core.Option.{Option, none, some}
pub use mathlib.Core.List.{List, [], ◌∷◌, ◌++◌, map}
pub use native.Mathlib.Omega.{arith}
