-- ===== src/Base.antt =====
-- The names that the other modules share: the libraries', passed on, and those of the children.
mod Tests
mod Lists
mod Text
mod Find
mod Decimal
pub use Tests.*
pub use Lists.*
unfoldable pub use Text.{beq, starts_with, find, find_char, text_until}
unfoldable pub use Decimal.{show_ℕ, show_ℤ, digits_from}
pub use Decimal.{ℤ, pos, negsuc}
pub use Find.{
  find-starts_with, starts_with_refl, find-drop, find-behind, find-none_left, find-none_cons,
  find-none-drop,
}
pub use Text.{
  find-cases, Bytes, codes, beq_refl, beq→eq, beq_iff, Lacks, Lacks-append, find_char-append,
  text_until-append, find_char-Lacks, find-within, find-append, find-shrink,
}
pub use Prim.Native.Nat.{ℕ, zero, suc, ◌+◌, ◌-◌, ◌*◌, ◌/◌, ◌%◌, ◌^◌, ◌≤◌, ◌<◌, min, max}
pub use Prim.Native.String.{String}
pub use mathlib.Core.Path.{◌≡◌, refl, sym, ap, ◌∙◌, ◌≡⟨◌⟩◌, ◌∎}
pub use mathlib.Core.Logic.{◌≢◌, ◌↔◌, ◌⊎◌, inl, inr}
pub use mathlib.Core.Bool.{Bool, true, false, not, ◌&&◌, ◌||◌}
pub use mathlib.Core.Option.{Option, none, some}
pub use mathlib.Core.List.{List, [], ◌∷◌, ◌++◌, map, append-nil, append_assoc, map-append}
pub use native.Mathlib.Omega.{arith}
