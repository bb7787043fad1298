-- ===== src/Checkpoint/Ccc/Refuse.antt =====
-- crates/vpn-engine/src/checkpoint/ccc.rs: the errors of the parser.
use yellow_vpn.Common.{
  ℕ, zero, suc, ◌≡◌, refl, inl, inr, Bool, true, false, Option, none, some, [], ◌∷◌, ltb, ◌==◌,
  if◌then◌else◌, Bool-cases, length, as_bytes,
}
use yellow_vpn.Error.{Text, is_permanent, Result, ok, err}
use yellow_vpn.Checkpoint.Ccc.{
  CccValue, empty, atom, node, Fields, skip_ws, read_token, Parsed, parsed, failed, stuck, and_then,
  parse_entry, next_field, parse_fields, fields_of, after_token, with_token, parse_body,
  parse_value, document, finish, finish_at, parse, max_depth, max_input_len,
}

-- The error, if there is one, is not permanent.
abbrev pub Passing {ℓ} : {A : Type ℓ} → Result A → Type 0
Passing (ok a) = Unit
Passing (err e) = is_permanent e ≡ false

abbrev Mild : {A : Type 0} → Parsed A → Type 0
Mild (failed e) = is_permanent e ≡ false
Mild _ = Unit

if-Mild : {A : Type 0} (b : Bool) (x y : Parsed A) → Mild x → Mild y → Mild (if b then x else y)
if-Mild true x y mx my = mx
if-Mild false x y mx my = my

and_then-Mild :
    {A B : Type 0} (p : Parsed A) (f : A → Text → Parsed B)
    → Mild p
    → ((a : A) (rest : Text) → Mild (f a rest))
    → Mild (and_then p f)
and_then-Mild (parsed a rest) f m g = g a rest
and_then-Mild (failed e) f m g = m
and_then-Mild stuck f m g = tt

module _ (value : Text → Parsed CccValue) (mild : (s : Text) → Mild (value s)) where
  parse_entry-Mild : (s : Text) → Mild (parse_entry value s)
  unfolding parse_entry
  parse_entry-Mild s =
      and_then-Mild (value (skip_ws (read_token (skip_ws s)).1)) _
        (mild (skip_ws (read_token (skip_ws s)).1)) (λ v rest. tt)

  next_field-Mild :
      (more : Text → Parsed Fields) (t : Text)
      → ((r : Text) → Mild (more r))
      → Mild (next_field (parse_entry value) more t)
  unfolding is_permanent
  next_field-Mild more [] again = refl
  next_field-Mild more (c ∷ cs) again = elim (Bool-cases (c == b')')) [
    | inl close ↦ rw close tt
    | inr open_ ↦ elim (Bool-cases (c == b':')) [
      | inl entry ↦
          rw (open_, entry)
            (and_then-Mild (parse_entry value cs) _ (parse_entry-Mild cs)
              (λ kv r. and_then-Mild (more r) _ (again r) (λ fs rest. tt)))
      | inr other ↦ rw (open_, other) refl
    ]
  ]

  parse_fields-Mild : (fuel : ℕ) (s : Text) → Mild (parse_fields value fuel s)
  unfolding parse_fields
  parse_fields-Mild zero s = tt
  parse_fields-Mild (suc fuel) s =
      next_field-Mild (parse_fields value fuel) (skip_ws s) (λ r. parse_fields-Mild fuel r)

  named-Mild :
      (o : Option Text) (s : Text)
      → Mild (and_then (fields_of value s) (λ fs rest. parsed (node o fs) rest))
  named-Mild o s =
      and_then-Mild (fields_of value s) _ (parse_fields-Mild (suc (length s)) s) (λ fs rest. tt)

  after_token-Mild : (token s : Text) → Mild (after_token value token s)
  after_token-Mild token [] = named-Mild (some token) []
  after_token-Mild token (c ∷ cs) = elim (Bool-cases (c == b')')) [
    | inl close ↦ rw close tt
    | inr open_ ↦ rw open_ (named-Mild (some token) (c ∷ cs))
  ]

  with_token-Mild : (token rest : Text) → Mild (with_token value (token, rest))
  unfolding is_permanent
  with_token-Mild [] rest = refl
  with_token-Mild (t ∷ ts) rest = after_token-Mild (t ∷ ts) (skip_ws rest)

  parse_body-Mild : (s : Text) → Mild (parse_body value s)
  unfolding parse_body is_permanent
  parse_body-Mild [] = refl
  parse_body-Mild (c ∷ cs) =
      let fields : Parsed CccValue =
        and_then (fields_of value (c ∷ cs)) (λ fs rest. parsed (node none fs) rest) in
      let other : Parsed CccValue = with_token value (read_token (c ∷ cs)) in
      if-Mild (c == b')') (parsed empty cs) (if c == b':' then fields else other) tt (
        if-Mild (c == b':') fields other (named-Mild none (c ∷ cs))
          (with_token-Mild (read_token (c ∷ cs)).0 (read_token (c ∷ cs)).1))

parse_value-Mild : (levels : ℕ) (s : Text) → Mild (parse_value levels s)
unfolding parse_value is_permanent
parse_value-Mild zero s = refl
parse_value-Mild (suc levels) [] = refl
parse_value-Mild (suc levels) (c ∷ cs) = elim (Bool-cases (c == b'(')) [
  | inl open_ ↦
      rw open_ (parse_body-Mild (parse_value levels) (λ s. parse_value-Mild levels s) (skip_ws cs))
  | inr other ↦ rw other refl
]

document-Passing : (v : CccValue) → Passing (document v)
unfolding is_permanent
document-Passing empty = refl
document-Passing (atom s) = refl
document-Passing (node none fs) = refl
document-Passing (node (some n) fs) = tt

finish_at-Passing : (v : CccValue) (rest : Text) → Passing (finish_at v rest)
unfolding is_permanent
finish_at-Passing v [] = document-Passing v
finish_at-Passing v (c ∷ cs) = refl

finish-Passing : (p : Parsed CccValue) → Mild p → Passing (finish p)
unfolding is_permanent
finish-Passing (parsed v rest) m = finish_at-Passing v (skip_ws rest)
finish-Passing (failed e) m = m
finish-Passing stuck m = refl

pub parse-Passing : (s : Text) → Passing (parse s)
unfolding parse is_permanent
parse-Passing s = elim (Bool-cases (ltb max_input_len (length (as_bytes s)))) [
  | inl long ↦ rw long refl
  | inr short ↦
      rw short (
        finish-Passing (parse_value max_depth (skip_ws s)) (parse_value-Mild max_depth (skip_ws s)))
]
