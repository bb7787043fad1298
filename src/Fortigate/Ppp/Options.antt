-- ===== src/Fortigate/Ppp/Options.antt =====
-- crates/vpn-engine/src/fortigate/ppp.rs: writing and reading option lists.
use yellow_vpn.Common.{
  ℕ, zero, suc, ◌+◌, ◌-◌, ◌≤◌, ◌≡◌, refl, inl, inr, ◌||◌, List, [], ◌∷◌, ◌++◌, append_assoc, arith,
  ltb, if◌then◌else◌, Bool-cases, length, take, drop, All, length-append, take-append-drop,
  length-take, length-drop, take-length_append, drop-length_append, Bytes, IsByte,
}
use yellow_vpn.Fortigate.Ppp.{parse_options_from, parse_options, build_options}

-- With enough fuel more fuel changes nothing.
parse_options_from_fuel :
    (f g : ℕ) (b : Bytes)
    → length b ≤ f
    → length b ≤ g
    → parse_options_from f b ≡ parse_options_from g b
unfolding parse_options_from
parse_options_from_fuel zero zero b hf hg = refl
parse_options_from_fuel zero (suc g) [] hf hg = refl
parse_options_from_fuel zero (suc g) (x ∷ b) hf hg = absurd (omega arith)
parse_options_from_fuel (suc f) zero [] hf hg = refl
parse_options_from_fuel (suc f) zero (x ∷ b) hf hg = absurd (omega arith)
parse_options_from_fuel (suc f) (suc g) [] hf hg = refl
parse_options_from_fuel (suc f) (suc g) (t ∷ []) hf hg = refl
parse_options_from_fuel (suc f) (suc g) (t ∷ (n ∷ rest)) hf hg =
    ground (arith, length-drop (n - 2) rest, parse_options_from_fuel f g (drop (n - 2) rest))

-- The loop's own equation, with no fuel.
pub parse_options-cons :
    (typ len : ℕ) (rest : Bytes)
    → parse_options (typ ∷ (len ∷ rest)) ≡ (
        if ltb len 2 || ltb (length rest + 2) len
        then []
        else (typ, take (len - 2) rest) ∷ parse_options (drop (len - 2) rest))
unfolding parse_options
parse_options-cons typ len rest = ground (
  arith,
  length-drop (len - 2) rest,
  parse_options_from_fuel (suc (length rest)) (length (drop (len - 2) rest)) (drop (len - 2) rest),
)

-- The values that fit an option.
abbrev pub Fits : ℕ × Bytes → Type 0
Fits (t, v) = length v ≤ 253

-- Options whose lengths fit their field are parsed back as they were built.
pub parse_options-build_options :
    (opts : List (ℕ × Bytes)) → All Fits opts → parse_options (build_options opts) ≡ opts
unfolding build_options
parse_options-build_options [] h = unfold parse_options in refl
parse_options-build_options ((t, v) ∷ opts) h = ground (
  arith,
  parse_options-cons t (length v + 2) (v ++ build_options opts),
  take-length_append v (build_options opts),
  drop-length_append v (build_options opts),
  length-append v (build_options opts),
  parse_options-build_options opts,
)

All-drop : (P : ℕ → Type 0) (n : ℕ) (xs : Bytes) → All P xs → All P (drop n xs)
All-drop P zero xs h = h
All-drop P (suc n) [] h = h
All-drop P (suc n) (x ∷ xs) h = All-drop P n xs h.1

-- One option that was taken stands in front of what the later ones were read from.
read_option :
    (t n : ℕ) (rest junk : Bytes) (opts : List (ℕ × Bytes))
    → IsByte n
    → 2 ≤ n
    → n ≤ length rest + 2
    → drop (n - 2) rest ≡ build_options opts ++ junk
    → t ∷ (n ∷ rest) ≡ build_options ((t, take (n - 2) rest) ∷ opts) ++ junk
unfolding build_options
read_option t n rest junk opts hn lo hi e = ground (
  arith,
  take-append-drop (n - 2) rest,
  length-take (n - 2) rest,
  append_assoc (take (n - 2) rest) (build_options opts) junk,
)

abbrev Heads : Bytes → List (ℕ × Bytes) → Type 0
Heads b opts = (junk : Bytes) × (b ≡ build_options opts ++ junk)

parse_options_from-Heads : (f : ℕ) (b : Bytes) → All IsByte b → Heads b (parse_options_from f b)
unfolding parse_options_from
parse_options_from-Heads zero b h = (b, unfold build_options in refl)
parse_options_from-Heads (suc f) [] h = ([], unfold build_options in refl)
parse_options_from-Heads (suc f) (t ∷ []) h = (t ∷ [], unfold build_options in refl)
parse_options_from-Heads (suc f) (t ∷ (n ∷ rest)) h =
    elim (Bool-cases (ltb n 2 || ltb (length rest + 2) n)) [
      | inl stop ↦ rw stop (t ∷ (n ∷ rest), unfold build_options in refl)
      | inr more ↦
          let (junk, e) =
            parse_options_from-Heads f (drop (n - 2) rest) (All-drop IsByte (n - 2) rest h.1.1) in
          rw more (junk, read_option t n rest junk _ h.1.0 (ground arith) (ground arith) e)
    ]

-- Where the input's elements are bytes, the options that are read stand at the head of the input
-- as `build_options` writes them, in their order.
pub build_options-parse_options :
    (b : Bytes) → All IsByte b → (junk : Bytes) × (b ≡ build_options (parse_options b) ++ junk)
unfolding parse_options
build_options-parse_options b h = parse_options_from-Heads (length b) b h
