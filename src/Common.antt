-- ===== src/Common.antt =====
-- The names that the other modules share: those of the libraries, passed on, and those of four
-- children: Boolean tests on the native numbers (Tests), lists measured by them (Lists), byte
-- strings with the big-endian encodings of `u16` and `u32` (Endian), and UTF-8 (Utf8). Two more
-- children are named by those who use them: the methods of `str` (Str) and finite tables (Table).
mod Tests
mod Lists
mod Endian
mod Utf8
pub mod Str
pub mod Table
pub mod Decimal
pub use Tests.*
pub use Lists.*
pub use Endian.*
unfoldable pub use Utf8.{as_bytes, from_utf8_lossy}
pub use Utf8.{as_bytes-append, codes, IsScalar, from_utf8_lossy-as_bytes}
pub use Prim.Native.Nat.{ℕ, zero, suc, ◌+◌, ◌-◌, ◌*◌, ◌/◌, ◌%◌, ◌^◌, ◌≤◌, ◌<◌}
pub use Prim.Native.String.{String}
pub use mathlib.Core.Path.{◌≡◌, refl, sym, ap, ◌∙◌}
pub use mathlib.Core.Logic.{◌≢◌, ◌↔◌, ◌⊎◌, inl, inr}
pub use mathlib.Core.Bool.{Bool, true, false, not, ◌&&◌, ◌||◌}
pub use mathlib.Core.Option.{Option, none, some}
pub use mathlib.Core.List.{List, [], ◌∷◌, ◌++◌, map, append-nil, append_assoc}
pub use native.Mathlib.Omega.{arith}
