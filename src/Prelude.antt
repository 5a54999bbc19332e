-- ===== src/Prelude.antt =====
-- The names that all the modules share: the libraries', and those of the children.
mod Tests
mod Lists
mod Text
mod Integer
mod Codes
pub mod Markers
pub mod Clock
pub mod Dict
pub mod Sets
pub mod Firsts
pub use Tests.{ltb, leb, if◌then◌else◌, ltb→lt, leb→le, le→leb, Bool-cases, Option-cases}
pub use Tests.{ℤ, pos, negsuc, to_nat, is_pos, is_some, ◌==◌ as nat_eq}
pub use Lists.*
pub use Text.{is_truthy-append}
unfoldable pub use Text.{is_space, lower_code}
unfoldable pub use Integer.{int_of_text}
unfoldable pub use Codes.{
  lstrip_codes, rstrip_codes, push_code, strip_codes, lower_codes, all_digits, count_digits,
  before_code, after_code,
}
unfoldable pub use Text.{codes, is_truthy, or_else, concat, join, strip, lower, upper, replace}
unfoldable pub use Text.{
  codes_eq, contains, any_marker, one_of, decimal, split, safe_id, upper_text, strip_char,
  ends_with, take_text,
}
pub use Prim.Native.Nat.{ℕ, zero, suc, ◌+◌, ◌-◌, ◌*◌, ◌/◌, ◌%◌, ◌≤◌, ◌<◌}
pub use Prim.Native.String.{String}
pub use mathlib.Core.Path.{◌≡◌, refl, ap, sym, ◌∙◌}
pub use mathlib.Core.Logic.{◌≢◌, ◌↔◌, ◌⊎◌, inl, inr}
pub use mathlib.Core.Bool.{Bool, true, false, not, ◌&&◌, ◌||◌}
pub use mathlib.Core.Option.{Option, none, some}
pub use mathlib.Core.List.{List, [], ◌∷◌, ◌++◌, map}
pub use native.Mathlib.Omega.{arith}
pub use text.Mathlib.Text.{◌==◌}
pub use text.Mathlib.TextEquality.{eq_iff}
