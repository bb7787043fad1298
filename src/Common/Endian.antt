-- ===== src/Common/Endian.antt =====
-- Byte strings as lists of numbers, and the big-endian encodings of `u16` and `u32`.
use Prim.Native.Nat.{ℕ, ◌+◌, ◌*◌, ◌/◌, ◌%◌, ◌^◌, ◌<◌}
use mathlib.Core.Path.{◌≡◌}
use mathlib.Core.List.{List, [], ◌∷◌}
use native.Mathlib.Omega.{arith}

abbrev pub Bytes : Type 0
Bytes = List ℕ

abbrev pub IsByte : ℕ → Type 0
IsByte b = b < 256

-- `n as u8`, `n as u16` and `n as u32` for an unsigned `n`.
abbrev pub as_u8 : ℕ → ℕ
as_u8 n = n % 2 ^ 8

abbrev pub as_u16 : ℕ → ℕ
as_u16 n = n % 2 ^ 16

abbrev pub as_u32 : ℕ → ℕ
as_u32 n = n % 2 ^ 32

-- `u16::to_be_bytes` and `u16::from_be_bytes`.
abbrev pub be16 : ℕ → Bytes
be16 n = (n / 256) ∷ (n % 256) ∷ []

abbrev pub from_be16 : ℕ → ℕ → ℕ
from_be16 a b = a * 256 + b

-- `u32::to_be_bytes` and `u32::from_be_bytes`.
abbrev pub be32 : ℕ → Bytes
be32 n = (n / 256 / 256 / 256) ∷ (n / 256 / 256 % 256) ∷ (n / 256 % 256) ∷ (n % 256) ∷ []

abbrev pub from_be32 : ℕ → ℕ → ℕ → ℕ → ℕ
from_be32 a b c d = ((a * 256 + b) * 256 + c) * 256 + d

pub from_be16-be16 : (n : ℕ) → from_be16 (n / 256) (n % 256) ≡ n
from_be16-be16 n = omega arith

pub from_be32-be32 :
    (n : ℕ) → from_be32 (n / 256 / 256 / 256) (n / 256 / 256 % 256) (n / 256 % 256) (n % 256) ≡ n
from_be32-be32 n = omega arith
