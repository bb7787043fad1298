-- ===== src/Checkpoint/Ccc/Total.antt =====
-- crates/vpn-engine/src/checkpoint/ccc.rs: the rounds that the parser takes.
use yellow_vpn.Common.{
  ℕ, zero, suc, ◌≤◌, ◌<◌, inl, inr, Bool, true, false, Option, none, some, [], ◌∷◌, arith, ◌==◌,
  if◌then◌else◌, Bool-cases, length,
}
use yellow_vpn.Error.{Text}
use yellow_vpn.Checkpoint.Ccc.{
  CccValue, empty, node, Fields, skip_ws, read_quoted, read_bare, read_token, Parsed, parsed,
  failed, stuck, and_then, parse_entry, next_field, parse_fields, fields_of, after_token,
  with_token, parse_body, parse_value,
}

-- The parser did not run out of fuel, and leaves at most so many characters.
abbrev pub Within : {A : Type 0} → ℕ → Parsed A → Type 0
Within n (parsed a rest) = length rest ≤ n
Within n (failed e) = Unit
Within n stuck = ⊥

if-Within :
    {A : Type 0} (n : ℕ) (b : Bool) (x y : Parsed A)
    → Within n x
    → Within n y
    → Within n (if b then x else y)
if-Within n true x y wx wy = wx
if-Within n false x y wx wy = wy

Within-le : {A : Type 0} (m n : ℕ) (p : Parsed A) → m ≤ n → Within m p → Within n p
Within-le m n (parsed a rest) h w = omega arith
Within-le m n (failed e) h w = tt
Within-le m n stuck h w = absurd w

and_then-Within :
    {A B : Type 0} (n k : ℕ) (p : Parsed A) (f : A → Text → Parsed B)
    → Within n p
    → ((a : A) (rest : Text) → length rest ≤ n → Within k (f a rest))
    → Within k (and_then p f)
and_then-Within n k (parsed a rest) f w g = g a rest w
and_then-Within n k (failed e) f w g = tt
and_then-Within n k stuck f w g = absurd w

skip_ws-le : (s : Text) → length (skip_ws s) ≤ length s
unfolding skip_ws
skip_ws-le [] = omega arith
skip_ws-le (c ∷ cs) = ground (arith, skip_ws-le cs)

read_quoted-le : (s : Text) → length (read_quoted s).1 ≤ length s
unfolding read_quoted
read_quoted-le [] = omega arith
read_quoted-le (c ∷ cs) = ground (arith, read_quoted-le cs)

read_bare-le : (s : Text) → length (read_bare s).1 ≤ length s
unfolding read_bare
read_bare-le [] = omega arith
read_bare-le (c ∷ cs) = ground (arith, read_bare-le cs)

read_token-le : (s : Text) → length (read_token s).1 ≤ length s
unfolding read_token
read_token-le [] = omega arith
read_token-le (c ∷ cs) = ground (arith, read_quoted-le cs, read_bare-le (c ∷ cs))

module _ (value : Text → Parsed CccValue) (total : (s : Text) → Within (length s) (value s)) where
  parse_entry-Within : (s : Text) → Within (length s) (parse_entry value s)
  unfolding parse_entry
  parse_entry-Within s =
      let rest = (read_token (skip_ws s)).1 in
      and_then-Within (length (skip_ws rest)) (length s) (value (skip_ws rest)) _
        (total (skip_ws rest))
        (λ v r h. omega (arith, h, skip_ws-le rest, read_token-le (skip_ws s), skip_ws-le s))

  next_field-Within :
      (more : Text → Parsed Fields) (n : ℕ) (t : Text)
      → length t ≤ n
      → ((r : Text) → length r < n → Within (length r) (more r))
      → Within n (next_field (parse_entry value) more t)
  next_field-Within more n [] le again = tt
  next_field-Within more n (c ∷ cs) le again = elim (Bool-cases (c == b')')) [
    | inl close ↦ rw close (omega arith)
    | inr open_ ↦ elim (Bool-cases (c == b':')) [
      | inl entry ↦
          rw (open_, entry)
            (and_then-Within (length cs) n (parse_entry value cs) _ (parse_entry-Within cs)
              (λ kv r le'.
                and_then-Within (length r) n (more r) _ (again r (omega arith))
                  (λ fs rest le''. omega arith)))
      | inr other ↦ rw (open_, other) tt
    ]
  ]

  parse_fields-Within :
      (fuel : ℕ) (s : Text) → length s < fuel → Within (length s) (parse_fields value fuel s)
  unfolding parse_fields
  parse_fields-Within zero s h = absurd (omega arith)
  parse_fields-Within (suc fuel) s h =
      next_field-Within (parse_fields value fuel) (length s) (skip_ws s) (skip_ws-le s)
        (λ r lt. parse_fields-Within fuel r (omega arith))

  named-Within :
      (n : ℕ) (o : Option Text) (s : Text)
      → length s ≤ n
      → Within n (and_then (fields_of value s) (λ fs rest. parsed (node o fs) rest))
  named-Within n o s h =
      and_then-Within (length s) n (fields_of value s) _
        (parse_fields-Within (suc (length s)) s (omega arith)) (λ fs rest le. omega arith)

  after_token-Within :
      (n : ℕ) (token s : Text) → length s ≤ n → Within n (after_token value token s)
  after_token-Within n token [] h = named-Within n (some token) [] h
  after_token-Within n token (c ∷ cs) h = elim (Bool-cases (c == b')')) [
    | inl close ↦ rw close (omega arith)
    | inr open_ ↦ rw open_ (named-Within n (some token) (c ∷ cs) h)
  ]

  with_token-Within :
      (n : ℕ) (token rest : Text) → length rest ≤ n → Within n (with_token value (token, rest))
  with_token-Within n [] rest h = tt
  with_token-Within n (t ∷ ts) rest h =
      after_token-Within n (t ∷ ts) (skip_ws rest) (omega (arith, skip_ws-le rest, h))

  parse_body-Within : (s : Text) → Within (length s) (parse_body value s)
  unfolding parse_body
  parse_body-Within [] = tt
  parse_body-Within (c ∷ cs) =
      let fields : Parsed CccValue =
        and_then (fields_of value (c ∷ cs)) (λ fs rest. parsed (node none fs) rest) in
      let other : Parsed CccValue = with_token value (read_token (c ∷ cs)) in
      if-Within (length (c ∷ cs)) (c == b')') (parsed empty cs)
        (if c == b':' then fields else other) (omega arith)
        (if-Within (length (c ∷ cs)) (c == b':') fields other
          (named-Within (length (c ∷ cs)) none (c ∷ cs) (omega arith))
          (with_token-Within (length (c ∷ cs)) (read_token (c ∷ cs)).0 (read_token (c ∷ cs)).1
            (read_token-le (c ∷ cs))))

-- The loop over the fields never needs more rounds than its fuel, whatever the text and however
-- deep it is nested, and a value leaves no more characters than it was given.
pub parse_value-Within : (levels : ℕ) (s : Text) → Within (length s) (parse_value levels s)
unfolding parse_value
parse_value-Within zero s = tt
parse_value-Within (suc levels) [] = tt
parse_value-Within (suc levels) (c ∷ cs) = elim (Bool-cases (c == b'(')) [
  | inl open_ ↦ rw open_ (
      Within-le (length (skip_ws cs)) (suc (length cs))
        (parse_body (parse_value levels) (skip_ws cs)) (omega (arith, skip_ws-le cs))
        (parse_body-Within (parse_value levels) (parse_value-Within levels) (skip_ws cs)))
  | inr other ↦ rw other tt
]
