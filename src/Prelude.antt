-- ===== src/Prelude.antt =====
-- The names that the other modules share: the libraries', passed on, and those of the children.
mod Tests
mod Lists
mod Outcomes
mod Guards
mod Updates
pub mod Xor
pub mod Or
pub use Tests.*
pub use Lists.*
pub use Updates.{set, set_at, set_other}
pub use Guards.{Ensures-else, Ensures-then, Ensures-if}
pub use Outcomes.{
  Outcome, done, blocked, fault, ◌>>=◌, map_done, Ensures, Allows, Allows->>=, Ensures->>=,
  Ensures-mono, Ensures-done, Accepts, Accepts->>=, Accepts-mono,
}
pub use Prim.Native.Nat.{ℕ, zero, suc, ◌+◌, ◌-◌, ◌*◌, ◌/◌, ◌%◌, ◌^◌, ◌≤◌, ◌<◌, max}
pub use mathlib.Core.Path.{◌≡◌, refl, sym, ap, subst, ◌∙◌, fun_ext}
pub use mathlib.Core.Logic.{◌≢◌, ◌↔◌, ◌⊎◌, inl, inr}
pub use mathlib.Core.Bool.{Bool, true, false, not, ◌&&◌, ◌||◌}
pub use mathlib.Core.Option.{Option, none, some}
pub use mathlib.Core.List.{List, [], ◌∷◌, ◌++◌, map, reverse, append_assoc, append-nil}
pub use native.Mathlib.Omega.{arith}
unfoldable pub use native.Mathlib.Decide.{dec_lt, ℕ_discrete}
