-- ===== src/Base.antt =====
-- The names that the other modules share: the libraries', passed on, Boolean tests, texts as lists
-- of bytes, dictionaries, and lists counted by native numbers.
mod Tests
mod Texts
mod Lists
mod Maps
mod Sorted
mod Split
mod Cutting
mod Results
mod Counting
unfoldable pub use Tests.*
unfoldable pub use Texts.*
unfoldable pub use Lists.*
unfoldable pub use Maps.*
unfoldable pub use Sorted.*
unfoldable pub use Split.*
unfoldable pub use Cutting.*
pub use Counting.*
pub use Results.{Result, ok, err, ◌>>=◌, bind-eq-ok, Result-cases, is_ok}
pub use Prim.Native.Nat.{ℕ, zero, suc, ◌+◌, ◌-◌, ◌*◌, ◌/◌, ◌%◌, ◌^◌, ◌≤◌, ◌<◌, bit_xor}
pub use Prim.Native.String.{String}
pub use mathlib.Core.Path.{◌≡◌, refl, sym, ap, ◌∙◌, subst}
pub use mathlib.Core.Logic.{◌≢◌, ◌↔◌, ◌⊎◌, inl, inr}
pub use mathlib.Core.Bool.{Bool, true, false, ◌&&◌, ◌||◌, not}
pub use mathlib.Core.Option.{Option, none, some}
pub use mathlib.Core.List.{
  List, [], ◌∷◌, ◌++◌, map, reverse, reverse-reverse, append-nil, append_assoc, reverse-append,
  map-append,
}
pub use native.Mathlib.Omega.{arith}
