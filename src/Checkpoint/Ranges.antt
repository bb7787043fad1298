-- ===== src/Checkpoint/Ranges.antt =====
-- crates/vpn-engine/src/checkpoint/session.rs: `range_to_subnets`, which splits an inclusive range
-- of addresses into aligned blocks.
pub mod Cover
use yellow_vpn.Common.{
  ℕ, zero, suc, ◌+◌, ◌-◌, ◌*◌, ◌/◌, ◌%◌, ◌^◌, ◌≤◌, ◌<◌, String, ◌≡◌, refl, sym, ap, ◌∙◌, ◌≢◌, ◌↔◌,
  ◌⊎◌, inl, inr, Bool, true, false, not, ◌&&◌, ◌||◌, Option, none, some, List, [], ◌∷◌, ◌++◌, map,
  append-nil, append_assoc, arith, ltb, leb, ◌==◌, if◌then◌else◌, ltb→lt, ltb→le, lt→ltb, le→ltb,
  leb→le, ==_iff, ==_self, Bool-cases, Option-cases, length, get_or, take, drop, All, length-append,
  take-append-drop, length-take, length-drop, take-length_append, drop-length_append, take-append,
  drop-append, All-append, Bytes, IsByte, as_u8, as_u16, as_u32, be16, from_be16, be32, from_be32,
  from_be16-be16, from_be32-be32, as_bytes, from_utf8_lossy, IsScalar, from_utf8_lossy-as_bytes,
  codes,
}
use yellow_vpn.Ipv4.{Ipv4Addr, Subnet, to_u32, from_u32}
use Prim.Native.Nat.{min}

-- `trailing_zeros`; the first number bounds the bits.
unfoldable pub trailing_zeros : ℕ → ℕ → ℕ
trailing_zeros zero n = 0
trailing_zeros (suc bits) n =
    let more = trailing_zeros bits (n / 2) in if n % 2 == 0 then suc more else 0

-- `63 - leading_zeros()` of a number that is not 0.
unfoldable pub floor_log2 : ℕ → ℕ → ℕ
floor_log2 zero n = 0
floor_log2 (suc bits) n = let more = floor_log2 bits (n / 2) in if ltb n 2 then 0 else suc more

abbrev pub align_bits : ℕ → ℕ
align_bits start = if start == 0 then 32 else trailing_zeros 32 (as_u32 start)

-- The host bits of the block at `start`.
unfoldable pub block_bits : ℕ → ℕ → ℕ
unfolding trailing_zeros floor_log2
block_bits start end = min (align_bits start) (floor_log2 63 (end - start + 1))

-- The loop. A round advances by one address at least, so the addresses left bound the rounds.
unfoldable pub blocks : ℕ → ℕ → ℕ → List Subnet
unfolding block_bits
blocks zero start end = []
blocks (suc rounds) start end =
    let bits = block_bits start end in
    let rest = blocks rounds (start + 2 ^ bits) end in
    if leb start end then (from_u32 (as_u32 start), 32 - bits) ∷ rest else []

unfoldable pub range_to_subnets : Ipv4Addr → Ipv4Addr → List Subnet
unfolding blocks
range_to_subnets from to =
    if ltb (to_u32 to) (to_u32 from)
    then []
    else blocks (to_u32 to - to_u32 from + 1) (to_u32 from) (to_u32 to)
