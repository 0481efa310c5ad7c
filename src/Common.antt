-- ===== src/Common.antt =====
-- What the other modules share: names of the libraries, tests on numbers, lists, byte strings and
-- maps. It models no code of its own.
pub mod Tests
pub mod Lists
pub mod ByteStrings
pub mod Dict
pub mod Bits
pub mod Base64
pub mod Endian
pub use Tests.*
pub use Lists.*
unfoldable pub use ByteStrings.{bytes_eq}
pub use ByteStrings.{Bytes, bytes_eq_iff, bytes_eq_refl, text}
pub use Prim.Native.Nat.{ℕ, zero, suc, ◌+◌, ◌-◌, ◌*◌, ◌/◌, ◌%◌, ◌^◌, ◌≤◌, ◌<◌}
pub use Prim.Native.Nat.{bit_and, bit_or, bit_xor}
pub use mathlib.Core.Path.{◌≡◌, refl, sym, ap, ◌∙◌}
pub use mathlib.Core.Logic.{◌≢◌, ◌↔◌, ◌⊎◌, inl, inr}
pub use mathlib.Core.Bool.{Bool, true, false, not, ◌&&◌, ◌||◌}
pub use mathlib.Core.Option.{Option, none, some}
pub use mathlib.Core.List.{List, [], ◌∷◌, ◌++◌, map}
pub use native.Mathlib.Omega.{arith}
