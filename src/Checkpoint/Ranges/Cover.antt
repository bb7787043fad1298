-- ===== src/Checkpoint/Ranges/Cover.antt =====
-- crates/vpn-engine/src/checkpoint/session.rs: which addresses the blocks of a range match.
use yellow_vpn.Common.{
  ℕ, zero, suc, ◌+◌, ◌-◌, ◌*◌, ◌/◌, ◌%◌, ◌^◌, ◌≤◌, ◌<◌, ◌≡◌, ◌∙◌, inl, inr, Bool, false, ◌&&◌, ◌||◌,
  List, [], ◌∷◌, arith, ltb, leb, ◌==◌, ltb→le, le→ltb, leb→le, Bool-cases, as_u32, from_be32-be32,
}
use yellow_vpn.Ipv4.{Ipv4Addr, Subnet, to_u32, from_u32}
use Prim.Native.Nat.{min}
use native.Mathlib.Nat.{lt-div-mul-add, div-mul-le_self, mul-div_cancel}
use yellow_vpn.Checkpoint.Ranges.{
  trailing_zeros, floor_log2, align_bits, block_bits, blocks, range_to_subnets,
}

pow_suc : (b : ℕ) → 2 ^ suc b ≡ 2 ^ b + 2 ^ b
pow_suc b = omega arith

pow_pos : (b : ℕ) → 0 < 2 ^ b
pow_pos zero = omega arith
pow_pos (suc b) = omega (arith, pow_suc b, pow_pos b)

twice_multiple : (n m k p : ℕ) → n ≡ m + m → m ≡ k * p → n ≡ k * (p + p)
twice_multiple n m k p h e = grind arith

trailing_zeros_divides : (f n b : ℕ) → b ≤ trailing_zeros f n → (k : ℕ) × (n ≡ k * 2 ^ b)
unfolding trailing_zeros
trailing_zeros_divides f n zero h = (n, omega arith)
trailing_zeros_divides zero n (suc b) h = absurd (omega arith)
trailing_zeros_divides (suc f) n (suc b) h = elim (Bool-cases (n % 2 == 0)) [
  | inl even ↦
      let (k, e) = trailing_zeros_divides f (n / 2) b (ground arith) in
      let twice : n ≡ n / 2 + n / 2 = ground arith in
      (k, rw (pow_suc b) (twice_multiple n (n / 2) k (2 ^ b) twice e))
  | inr odd ↦ absurd (ground arith)
]

trailing_zeros-le : (f n : ℕ) → trailing_zeros f n ≤ f
unfolding trailing_zeros
trailing_zeros-le zero n = omega arith
trailing_zeros-le (suc f) n = ground (arith, trailing_zeros-le f (n / 2))

floor_log2_fits : (f n b : ℕ) → 0 < n → b ≤ floor_log2 f n → 2 ^ b ≤ n
unfolding floor_log2
floor_log2_fits f n zero pos h = omega arith
floor_log2_fits zero n (suc b) pos h = absurd (omega arith)
floor_log2_fits (suc f) n (suc b) pos h = elim (Bool-cases (ltb n 2)) [
  | inl small ↦ absurd (ground arith)
  | inr big ↦
      let fits = floor_log2_fits f (n / 2) b (ground arith) (ground arith) in
      omega (arith, pow_suc b, fits)
]

min-le : (m n : ℕ) → (min m n ≤ m) × (min m n ≤ n)
min-le m n = (omega arith, omega arith)

-- A block starts at a multiple of its size, and ends within the range.
block_bits_fits :
    (start end : ℕ)
    → start ≤ end
    → end < 2 ^ 32
    → (block_bits start end ≤ 32)
      × ((k : ℕ) × (start ≡ k * 2 ^ block_bits start end))
      × (2 ^ block_bits start end ≤ end - start + 1)
unfolding block_bits
block_bits_fits start end le small = (
  omega (arith, bound, fit.0),
  aligned,
  floor_log2_fits 63 (end - start + 1) (block_bits start end) (omega arith) fit.1,
)
  where
    fit :
        (block_bits start end ≤ align_bits start)
        × (block_bits start end ≤ floor_log2 63 (end - start + 1))
    fit = min-le (align_bits start) (floor_log2 63 (end - start + 1))

    bound : align_bits start ≤ 32
    bound = ground (arith, trailing_zeros-le 32 (as_u32 start))

    aligned : (k : ℕ) × (start ≡ k * 2 ^ block_bits start end)
    aligned = elim (Bool-cases (start == 0)) [
      | inl z ↦ (0, ground arith)
      | inr n ↦
          let (k, e) =
            trailing_zeros_divides 32 (as_u32 start) (block_bits start end) (ground arith) in
          (k, omega (arith, e))
    ]

-- Networks that follow one another without a gap from `s` up to, but without, `e`.
abbrev pub Tiles : ℕ → ℕ → List Subnet → Type 0
Tiles s e [] = s ≡ e
Tiles s e ((a, p) ∷ rest) =
    (to_u32 a ≡ s) × (p ≤ 32) × ((k : ℕ) × (s ≡ k * 2 ^ (32 - p))) × Tiles (s + 2 ^ (32 - p)) e rest

-- Does the network match the address?
abbrev pub matches : Subnet → ℕ → Bool
matches (a, p) x = x / 2 ^ (32 - p) == to_u32 a / 2 ^ (32 - p)

abbrev pub matched : List Subnet → ℕ → Bool
matched [] x = false
matched (n ∷ ns) x = matches n x || matched ns x

to_u32-from_u32 : (n : ℕ) → to_u32 (from_u32 n) ≡ n
to_u32-from_u32 n = from_be32-be32 n

host_bits : (b : ℕ) → b ≤ 32 → 32 - (32 - b) ≡ b
host_bits b h = omega arith

blocks-Tiles :
    (rounds start end : ℕ)
    → start ≤ end + 1
    → end < 2 ^ 32
    → end + 1 - start ≤ rounds
    → Tiles start (end + 1) (blocks rounds start end)
unfolding blocks
blocks-Tiles zero start end le small enough = omega arith
blocks-Tiles (suc rounds) start end le small enough = elim (Bool-cases (leb start end)) [
  | inr over ↦ rw over (ground arith)
  | inl more ↦
      let here = leb→le start end more in
      let (b32, aligned, fits) = block_bits_fits start end here small in
      let pos = pow_pos (block_bits start end) in
      rw (more, host_bits (block_bits start end) b32)
        (
          to_u32-from_u32 (as_u32 start) ∙ omega arith,
          omega arith,
          aligned,
          blocks-Tiles rounds (start + 2 ^ block_bits start end) end (omega arith) small
              (omega arith),
        )
]

next_multiple : (q k n : ℕ) → q < k → q * n + n ≤ k * n
next_multiple q k n h = grind arith

-- Between two multiples of `n`, the quotients say which block a number is in.
quotient_test :
    (q k n x : ℕ) → q * n ≤ x → x < q * n + n → (q == k) ≡ (leb (k * n) x && ltb x (k * n + n))
quotient_test q k n x lo hi = elim (Bool-cases (ltb q k)) [
  | inl below ↦ ground (arith, next_multiple q k n)
  | inr not_below ↦ elim (Bool-cases (ltb k q)) [
    | inl above ↦ ground (arith, next_multiple k q n)
    | inr equal ↦ let e : q ≡ k = ground arith in rw (← e) (ground arith)
  ]
]

div_multiple : (k n : ℕ) → 0 < n → k * n / n ≡ k
div_multiple k n h = mul-div_cancel k h

matches_block :
    (a : Ipv4Addr) (p s k x : ℕ)
    → to_u32 a ≡ s
    → s ≡ k * 2 ^ (32 - p)
    → matches (a, p) x ≡ (leb s x && ltb x (s + 2 ^ (32 - p)))
matches_block a p s k x here multiple =
    rw (here, multiple, div_multiple k (2 ^ (32 - p)) (pow_pos (32 - p)))
      (quotient_test (x / 2 ^ (32 - p)) k (2 ^ (32 - p)) x (div-mul-le_self x (2 ^ (32 - p)))
        (lt-div-mul-add (pow_pos (32 - p))))

Tiles-le : (s e : ℕ) (ns : List Subnet) → Tiles s e ns → s ≤ e
Tiles-le s e [] t = omega arith
Tiles-le s e ((a, p) ∷ ns) (here, small, multiple, rest) =
    omega (arith, Tiles-le (s + 2 ^ (32 - p)) e ns rest)

Tiles-matched : (s e x : ℕ) (ns : List Subnet) → Tiles s e ns → matched ns x ≡ (leb s x && ltb x e)
Tiles-matched s e x [] t = ground arith
Tiles-matched s e x ((a, p) ∷ ns) (here, small, (k, multiple), rest) =
    rw (matches_block a p s k x here multiple, Tiles-matched (s + 2 ^ (32 - p)) e x ns rest)
      (ground (arith, Tiles-le (s + 2 ^ (32 - p)) e ns rest))

-- The networks of a range follow one another without a gap or an overlap, from its first address
-- up to and including its last, each of them aligned to its size.
pub range_to_subnets-Tiles :
    (from to : Ipv4Addr)
    → to_u32 from ≤ to_u32 to
    → to_u32 to < 2 ^ 32
    → Tiles (to_u32 from) (to_u32 to + 1) (range_to_subnets from to)
unfolding range_to_subnets
range_to_subnets-Tiles from to le small = rw (le→ltb (to_u32 to) (to_u32 from) le) (
    blocks-Tiles (to_u32 to - to_u32 from + 1) (to_u32 from) (to_u32 to) (omega arith) small
      (omega arith))

-- A route of the range matches an address exactly where the range holds it, whatever the range.
pub matched-range_to_subnets :
    (from to : Ipv4Addr) (x : ℕ)
    → to_u32 to < 2 ^ 32
    → matched (range_to_subnets from to) x ≡ (leb (to_u32 from) x && leb x (to_u32 to))
unfolding range_to_subnets
matched-range_to_subnets from to x small = elim (Bool-cases (ltb (to_u32 to) (to_u32 from))) [
  | inl none_ ↦ rw none_ (ground arith)
  | inr some_ ↦
      Tiles-matched (to_u32 from) (to_u32 to + 1) x (range_to_subnets from to)
        (range_to_subnets-Tiles from to (ltb→le (to_u32 to) (to_u32 from) some_) small)
      ∙ ground arith
]
