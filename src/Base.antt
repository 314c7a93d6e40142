-- ===== src/Base.antt =====
-- Names that the other modules share: the libraries', passed on, and those of the children:
-- Boolean tests (Tests), byte strings (Bytes), Go maps (Maps), outcomes of calls (Outcome).
mod Tests
mod Bytes
mod Maps
mod Outcome
pub use Tests.*
pub use Outcome.*
unfoldable pub use Bytes.{
  Str, codes, Str-discrete, str_eq, length, is_digit, all_bytes, decimal_digits, decimal,
}
unfoldable pub use Maps.{Dict, lookup, insert, erase}
pub use Bytes.{str_eq_iff}
pub use Maps.{lookup-insert, lookup-erase}
pub use Prim.Native.Nat.{ℕ, zero, suc, ◌+◌, ◌-◌, ◌*◌, ◌/◌, ◌%◌, ◌^◌, ◌≤◌, ◌<◌}
pub use mathlib.Core.Path.{◌≡◌, refl, sym, ap, ◌∙◌, ◌≡⟨◌⟩◌, ◌∎}
pub use mathlib.Core.Logic.{◌≢◌, ◌↔◌, ◌⊎◌, inl, inr}
pub use mathlib.Core.Bool.{Bool, true, false, not, ◌&&◌, ◌||◌}
pub use mathlib.Core.Option.{Option, none, some}
pub use mathlib.Core.List.{List, [], ◌∷◌, ◌++◌, map}
unfoldable pub use mathlib.Core.List.{reverse}
pub use native.Mathlib.Omega.{arith}
unfoldable pub use native.Mathlib.Decide.{dec_lt, ℕ_discrete}
