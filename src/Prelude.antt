-- ===== src/Prelude.antt =====
-- The names that the other modules share: the libraries', passed on, and those of the children.
-- `Tests` has the Boolean tests, `Lists` the lists measured by native numbers, `Words` the
-- saturating and wrapping arithmetic of Rust's unsigned integers, `Io` the `io::Result`, `Str`, `Find`
-- and `Utf8` the operations of `str` and `String`.
mod Tests
mod Lists
mod Words
mod Io
mod Str
mod Find
mod Utf8
mod Below
mod Int
mod Distinct
pub use Tests.*
pub use Lists.*
pub use Words.*
pub use Io.*
unfoldable pub use Str.*
unfoldable pub use Find.*
unfoldable pub use Utf8.*
pub use Below.*
pub use Int.*
pub use Distinct.*
pub use Prim.Native.Nat.{ℕ, zero, suc, ◌+◌, ◌-◌, ◌*◌, ◌/◌, ◌%◌, ◌^◌, ◌≤◌, ◌<◌, min, max}
pub use Prim.Native.String.{String}
pub use mathlib.Core.Path.{◌≡◌, refl, sym, ap, ap₂, subst, subst⁻¹, ◌∙◌}
pub use mathlib.Core.Logic.{◌≢◌, ◌↔◌, ◌⊎◌, inl, inr}
pub use mathlib.Core.Bool.{Bool, true, false, not, ◌&&◌, ◌||◌}
pub use mathlib.Core.Option.{Option, none, some}
pub use mathlib.Core.List.{
  List, [], ◌∷◌, ◌++◌, map, append-nil, append_assoc, reverse, reverse-append, reverse-reverse,
}
pub use native.Mathlib.Omega.{arith}
