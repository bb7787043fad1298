-- ===== src/Checkpoint/Ccc/RoundTrip.antt =====
-- crates/vpn-engine/src/checkpoint/ccc.rs: writing a document and parsing it back.
use Prim.Native.Nat.{max}
use mathlib.Core.Path.{subst}
use yellow_vpn.Common.{
  ℕ, zero, suc, ◌≤◌, ◌<◌, ◌≡◌, refl, sym, ap, ◌∙◌, Bool, true, false, not, ◌&&◌, Option, none, some,
  [], ◌∷◌, ◌++◌, append-nil, append_assoc, arith, ◌==◌, length, All, length-append, as_bytes,
}
use yellow_vpn.Error.{Text, ok}
use yellow_vpn.Checkpoint.Ccc.{
  CccValue, empty, atom, node, Fields, nil, field, tabs, name_text, write_indented, write_fields,
  to_wire, is_ws, is_delimiter, skip_ws, read_quoted, read_bare, read_token, Parsed, parsed,
  and_then, parse_entry, parse_fields, fields_of, after_token, with_token, parse_body, parse_value,
  finish, parse, max_depth, max_input_len,
}

-- A character of a bare token, behind its first.
abbrev pub IsBare : ℕ → Type 0
IsBare c = is_delimiter c ≡ false

abbrev pub IsUnquoted : ℕ → Type 0
IsUnquoted c = (c == b'"') ≡ false

-- What the parser reads as one token: a bare one, or one within quotes.
pub data IsToken : Text → Type 0 where
  bare :
      (c : ℕ) (cs : Text)
      → IsBare c
      → IsUnquoted c
      → (c == b':') ≡ false
      → All IsBare cs
      → IsToken (c ∷ cs)
  quoted : (body : Text) → All IsUnquoted body → IsToken (b'"' ∷ (body ++ (b'"' ∷ [])))

bare_all : Text → Bool
bare_all [] = true
bare_all (c ∷ cs) = not (is_delimiter c) && bare_all cs

-- The test of a bare token.
unfoldable pub is_bare_token : Text → Bool
unfolding bare_all
is_bare_token [] = false
is_bare_token (c ∷ cs) =
    not (is_delimiter c) && (not (c == b'"') && (not (c == b':') && bare_all cs))

bare_all-All : (cs : Text) → bare_all cs ≡ true → All IsBare cs
unfolding bare_all
bare_all-All [] h = tt
bare_all-All (c ∷ cs) h = (ground arith, bare_all-All cs (ground arith))

pub is_bare_token-IsToken : (t : Text) → is_bare_token t ≡ true → IsToken t
unfolding is_bare_token
is_bare_token-IsToken [] h = absurd (ground arith)
is_bare_token-IsToken (c ∷ cs) h =
    bare c cs (ground arith) (ground arith) (ground arith) (bare_all-All cs (ground arith))

read_bare_to :
    (cs : Text) (d : ℕ) (rest : Text)
    → All IsBare cs
    → is_delimiter d ≡ true
    → read_bare (cs ++ (d ∷ rest)) ≡ (cs, d ∷ rest)
unfolding read_bare
read_bare_to [] d rest h e = rw e refl
read_bare_to (c ∷ cs) d rest h e = rw (h.0, read_bare_to cs d rest h.1 e) refl

read_quoted_to :
    (body : Text) (rest : Text)
    → All IsUnquoted body
    → read_quoted ((body ++ (b'"' ∷ [])) ++ rest) ≡ (body ++ (b'"' ∷ []), rest)
unfolding read_quoted
read_quoted_to [] rest h = refl
read_quoted_to (c ∷ cs) rest h = rw (h.0, read_quoted_to cs rest h.1) refl

read_token_to :
    {t : Text} (d : ℕ) (rest : Text)
    → IsToken t
    → is_delimiter d ≡ true
    → read_token (t ++ (d ∷ rest)) ≡ (t, d ∷ rest)
unfolding read_token
read_token_to d rest (bare c cs hb hq hc hs) e = rw (hq, hb, read_bare_to cs d rest hs e) refl
read_token_to d rest (quoted body h) e = rw (read_quoted_to body (d ∷ rest) h) refl

-- The first character of a token.
token_head :
    {t : Text}
    → IsToken t
    → (c : ℕ) × (cs : Text) × (t ≡ c ∷ cs) × (is_delimiter c ≡ false) × ((c == b':') ≡ false)
token_head (bare c cs hb hq hc hs) = (c, cs, refl, hb, hc)
token_head (quoted body h) = (b'"', body ++ (b'"' ∷ []), refl, refl, refl)

abbrev pub IsName : Option Text → Type 0
IsName none = Unit
IsName (some n) = IsToken n

-- Documents that the parser can give: tokens where it reads tokens, and no node without fields.
abbrev mutual
  pub WellFormed : CccValue → Type 0
  WellFormed empty = Unit
  WellFormed (atom s) = IsToken s
  WellFormed (node n nil) = ⊥
  WellFormed (node n (field k v fs)) = IsName n × (IsToken k × (WellFormed v × WellFormedAll fs))

  pub WellFormedAll : Fields → Type 0
  WellFormedAll nil = Unit
  WellFormedAll (field k v fs) = IsToken k × (WellFormed v × WellFormedAll fs)

abbrev mutual
  pub height : CccValue → ℕ
  height empty = 1
  height (atom s) = 1
  height (node n fs) = suc (height_all fs)

  pub height_all : Fields → ℕ
  height_all nil = 0
  height_all (field k v fs) = max (height v) (height_all fs)

abbrev count : Fields → ℕ
count nil = 0
count (field k v fs) = suc (count fs)

-- The text of a node from its fields on.
abbrev tail : Fields → ℕ → Text → Text
tail fs depth rest = write_fields fs depth ++ (tabs depth ++ (b')' ∷ rest))

skip_ws-tabs : (n : ℕ) (s : Text) → skip_ws (tabs n ++ s) ≡ skip_ws s
unfolding skip_ws
skip_ws-tabs zero s = refl
skip_ws-tabs (suc n) s = skip_ws-tabs n s

skip_ws-token : {t : Text} (s : Text) → IsToken t → skip_ws (t ++ s) ≡ t ++ s
unfolding skip_ws
skip_ws-token {t} s h = let (c, cs, e, delim, colon) = token_head h in rw e (go c cs delim)
  where
    go : (c : ℕ) (cs : Text) → is_delimiter c ≡ false → skip_ws ((c ∷ cs) ++ s) ≡ (c ∷ cs) ++ s
    go c cs d = ground arith

field_text :
    (k : Text) (v : CccValue) (fs : Fields) (depth : ℕ) (rest : Text)
    → tail (field k v fs) depth rest
      ≡ tabs (suc depth)
        ++ (b':' ∷ (k ++ (b' ' ∷ (write_indented v (suc depth) ++ (b'\n' ∷ tail fs depth rest)))))
unfolding write_fields
field_text k v fs depth rest = simp append_assoc

skip_ws-tail :
    (k : Text) (v : CccValue) (fs : Fields) (depth : ℕ) (rest : Text)
    → skip_ws (tail (field k v fs) depth rest)
      ≡ b':' ∷ (k ++ (b' ' ∷ (write_indented v (suc depth) ++ (b'\n' ∷ tail fs depth rest))))
skip_ws-tail k v fs depth rest =
    rw (field_text k v fs depth rest) (skip_ws-tabs (suc depth) _ ∙ unfold skip_ws in refl)

skip_ws-write_indented :
    (v : CccValue) (depth : ℕ) (s : Text)
    → skip_ws (write_indented v depth ++ s) ≡ write_indented v depth ++ s
unfolding skip_ws write_indented
skip_ws-write_indented empty depth s = refl
skip_ws-write_indented (atom t) depth s = refl
skip_ws-write_indented (node n fs) depth s = refl

skip_ws-blank : (c : ℕ) (s : Text) → is_ws c ≡ true → skip_ws (c ∷ s) ≡ skip_ws s
unfolding skip_ws
skip_ws-blank c s e = rw e refl

skip_ws-close : (depth : ℕ) (rest : Text) → skip_ws (tail nil depth rest) ≡ b')' ∷ rest
unfolding write_fields
skip_ws-close depth rest = skip_ws-tabs depth (b')' ∷ rest) ∙ unfold skip_ws in refl

-- The function parses the value back from its text, at any depth.
abbrev Reads : (Text → Parsed CccValue) → CccValue → Type 0
Reads value v = (depth : ℕ) (rest : Text) → value (write_indented v depth ++ rest) ≡ parsed v rest

abbrev ReadsAll : (Text → Parsed CccValue) → Fields → Type 0
ReadsAll value nil = Unit
ReadsAll value (field k v fs) = IsToken k × (Reads value v × ReadsAll value fs)

module _ (value : Text → Parsed CccValue) where
  parse_entry-field :
      (k : Text) (v : CccValue) (depth : ℕ) (rest : Text)
      → IsToken k
      → Reads value v
      → parse_entry value (k ++ (b' ' ∷ (write_indented v depth ++ rest))) ≡ parsed (k, v) rest
  unfolding parse_entry
  parse_entry-field k v depth rest token reads =
      rw
        (
          skip_ws-token (b' ' ∷ (write_indented v depth ++ rest)) token,
          read_token_to b' ' (write_indented v depth ++ rest) token refl,
          skip_ws-blank b' ' (write_indented v depth ++ rest) refl,
          skip_ws-write_indented v depth rest,
          reads depth rest,
        )
        refl

  parse_fields-tail :
      (fs : Fields) (fuel depth : ℕ) (rest s : Text)
      → ReadsAll value fs
      → count fs < fuel
      → skip_ws s ≡ skip_ws (tail fs depth rest)
      → parse_fields value fuel s ≡ parsed fs rest
  unfolding parse_fields
  parse_fields-tail fs zero depth rest s h enough same = absurd (omega arith)
  parse_fields-tail nil (suc fuel) depth rest s h enough same =
      rw (same, skip_ws-close depth rest) refl
  parse_fields-tail (field k v fs) (suc fuel) depth rest s (token, (reads, more)) enough same =
      rw
        (
          same,
          skip_ws-tail k v fs depth rest,
          parse_entry-field k v (suc depth) (b'\n' ∷ tail fs depth rest) token reads,
          parse_fields-tail fs fuel depth rest (b'\n' ∷ tail fs depth rest) more (omega arith)
              (skip_ws-blank b'\n' (tail fs depth rest) refl),
        )
        refl

  count-tail : (fs : Fields) (depth : ℕ) (rest : Text) → count fs ≤ length (tail fs depth rest)
  unfolding write_fields
  count-tail nil depth rest = omega arith
  count-tail (field k v fs) depth rest =
      let text = ap length (field_text k v fs depth rest) in
      let outer =
        length-append (tabs (suc depth))
          (b':' ∷ (k ++ (b' ' ∷ (write_indented v (suc depth) ++ (b'\n' ∷ tail fs depth rest))))) in
      let key =
        length-append k (b' ' ∷ (write_indented v (suc depth) ++ (b'\n' ∷ tail fs depth rest))) in
      let inner = length-append (write_indented v (suc depth)) (b'\n' ∷ tail fs depth rest) in
      let enough = count-tail fs depth rest in omega arith

  -- The fields of a node that has one, from its first ':' on.
  fields_of-tail :
      (k : Text) (v : CccValue) (fs : Fields) (depth : ℕ) (rest : Text)
      → ReadsAll value (field k v fs)
      → fields_of value (skip_ws (tail (field k v fs) depth rest)) ≡ parsed (field k v fs) rest
  unfolding skip_ws
  fields_of-tail k v fs depth rest h = rw (skip_ws-tail k v fs depth rest) (
      parse_fields-tail (field k v fs) _ depth rest _ h
        (let enough = count-tail fs depth rest in
          rw (length-append k _, length-append (write_indented v (suc depth)) _) (omega arith))
        (sym (skip_ws-tail k v fs depth rest)))

  is_delimiter-close : (c : ℕ) → is_delimiter c ≡ false → (c == b')') ≡ false
  is_delimiter-close c h = ground arith

  body-read :
      (c : ℕ) (cs s : Text)
      → is_delimiter c ≡ false
      → (c == b':') ≡ false
      → read_token ((c ∷ cs) ++ s) ≡ (c ∷ cs, s)
      → parse_body value ((c ∷ cs) ++ s) ≡ after_token value (c ∷ cs) (skip_ws s)
  body-read c cs s delim colon read =
      unfold parse_body in rw (is_delimiter-close c delim, colon) refl ∙ ap (with_token value) read

  body-token :
      {t : Text} (d : ℕ) (rest : Text)
      → IsToken t
      → is_delimiter d ≡ true
      → parse_body value (skip_ws (t ++ (d ∷ rest))) ≡ after_token value t (skip_ws (d ∷ rest))
  body-token {t} d rest token e =
      let (c, cs, same, delim, colon) = token_head token in
      rw (skip_ws-token (d ∷ rest) token) (
        subst
          (λ u.
            read_token (u ++ (d ∷ rest)) ≡ (u, d ∷ rest)
            → parse_body value (u ++ (d ∷ rest)) ≡ after_token value u (skip_ws (d ∷ rest)))
          (sym same) (body-read c cs (d ∷ rest) delim colon) (read_token_to d rest token e))

  -- The two forms of a node, from the ':' of its first field on.
  after_token-colon :
      (n s : Text) {t : Text} {fs : Fields} {rest : Text}
      → t ≡ b':' ∷ s
      → fields_of value t ≡ parsed fs rest
      → after_token value n t ≡ parsed (node (some n) fs) rest
  after_token-colon n s {t} {fs} {rest} e read =
      subst
        (λ u.
          fields_of value u ≡ parsed fs rest
          → after_token value n u ≡ parsed (node (some n) fs) rest)
        (sym e) (λ h. ap (λ p. and_then p (λ fs rest. parsed (node (some n) fs) rest)) h) read

  parse_body-colon :
      (s : Text) {t : Text} {fs : Fields} {rest : Text}
      → t ≡ b':' ∷ s
      → fields_of value t ≡ parsed fs rest
      → parse_body value t ≡ parsed (node none fs) rest
  parse_body-colon s {t} {fs} {rest} e read =
      subst
        (λ u. fields_of value u ≡ parsed fs rest → parse_body value u ≡ parsed (node none fs) rest)
        (sym e)
        (unfold parse_body in λ h. ap (λ p. and_then p (λ fs rest. parsed (node none fs) rest)) h)
        read

  body-named :
      {n : Text} (k : Text) (v : CccValue) (fs : Fields) (depth : ℕ) (rest : Text)
      → IsToken n
      → ReadsAll value (field k v fs)
      → parse_body value (skip_ws (n ++ (b'\n' ∷ tail (field k v fs) depth rest)))
        ≡ parsed (node (some n) (field k v fs)) rest
  body-named {n} k v fs depth rest token h =
      body-token b'\n' (tail (field k v fs) depth rest) token refl
      ∙ rw (skip_ws-blank b'\n' (tail (field k v fs) depth rest) refl) (
          after_token-colon n _ (skip_ws-tail k v fs depth rest)
            (fields_of-tail k v fs depth rest h))

  body-unnamed :
      (k : Text) (v : CccValue) (fs : Fields) (depth : ℕ) (rest : Text)
      → ReadsAll value (field k v fs)
      → parse_body value (skip_ws (b'\n' ∷ tail (field k v fs) depth rest))
        ≡ parsed (node none (field k v fs)) rest
  body-unnamed k v fs depth rest h =
      rw (skip_ws-blank b'\n' (tail (field k v fs) depth rest) refl)
        (parse_body-colon _ (skip_ws-tail k v fs depth rest) (fields_of-tail k v fs depth rest h))

node_text :
    (n : Option Text) (fs : Fields) (depth : ℕ) (rest : Text)
    → write_indented (node n fs) depth ++ rest
      ≡ b'(' ∷ (name_text n ++ (b'\n' ∷ tail fs depth rest))
unfolding write_indented
node_text n fs depth rest = simp append_assoc

parse_value-open :
    (levels : ℕ) (s : Text)
    → parse_value (suc levels) (b'(' ∷ s) ≡ parse_body (parse_value levels) (skip_ws s)
unfolding parse_value
parse_value-open levels s = refl

parse_value-node :
    (levels depth : ℕ) (rest : Text) (n : Option Text) (k : Text) (v : CccValue) (fs : Fields)
    → IsName n
    → ReadsAll (parse_value levels) (field k v fs)
    → parse_value (suc levels) (write_indented (node n (field k v fs)) depth ++ rest)
      ≡ parsed (node n (field k v fs)) rest
parse_value-node levels depth rest (some n) k v fs token h =
    rw (node_text (some n) (field k v fs) depth rest)
      (parse_value-open levels _ ∙ body-named (parse_value levels) k v fs depth rest token h)
parse_value-node levels depth rest none k v fs token h =
    rw (node_text none (field k v fs) depth rest)
      (parse_value-open levels _ ∙ body-unnamed (parse_value levels) k v fs depth rest h)

parse_value-atom :
    (levels depth : ℕ) (rest t : Text)
    → IsToken t
    → parse_value (suc levels) (write_indented (atom t) depth ++ rest) ≡ parsed (atom t) rest
parse_value-atom levels depth rest t token = rw (atom_text t depth rest) (
    parse_value-open levels _
    ∙ (body-token (parse_value levels) b')' rest token refl ∙ unfold skip_ws in refl))
  where
    atom_text :
        (t : Text) (depth : ℕ) (rest : Text)
        → write_indented (atom t) depth ++ rest ≡ b'(' ∷ (t ++ (b')' ∷ rest))
    atom_text t depth rest = unfold write_indented in simp append_assoc

parse_value-empty : (levels : ℕ) → Reads (parse_value (suc levels)) empty
unfolding parse_value parse_body skip_ws write_indented
parse_value-empty levels depth rest = refl

height-positive : (v : CccValue) → 1 ≤ height v
height-positive empty = omega arith
height-positive (atom t) = omega arith
height-positive (node n fs) = omega arith

mutual
  parse_value-write_indented :
      (levels : ℕ) (v : CccValue) → WellFormed v → height v ≤ levels → Reads (parse_value levels) v
  parse_value-write_indented zero v w deep =
      absurd (let positive = height-positive v in omega arith)
  parse_value-write_indented (suc levels) empty w deep = parse_value-empty levels
  parse_value-write_indented (suc levels) (atom t) token deep =
      λ depth rest. parse_value-atom levels depth rest t token
  parse_value-write_indented (suc levels) (node n nil) w deep = absurd w
  parse_value-write_indented (suc levels) (node n (field k v fs)) w deep = λ depth rest.
      parse_value-node levels depth rest n k v fs w.0
        (reads_all levels (field k v fs) w.1 (omega arith))

  reads_all :
      (levels : ℕ) (fs : Fields)
      → WellFormedAll fs
      → height_all fs ≤ levels
      → ReadsAll (parse_value levels) fs
  reads_all levels nil w deep = tt
  reads_all levels (field k v fs) (key, (w, more)) deep = (
    key,
    (parse_value-write_indented levels v w (omega arith), reads_all levels fs more (omega arith)),
  )

parse-short :
    (input : Text)
    → length (as_bytes input) ≤ max_input_len
    → parse input ≡ finish (parse_value max_depth (skip_ws input))
unfolding parse
parse-short input short = ground arith

parse_value-to_wire :
    (v : CccValue)
    → parse_value max_depth (write_indented v 0 ++ []) ≡ parsed v []
    → parse_value max_depth (skip_ws (to_wire v)) ≡ parsed v []
unfolding to_wire
parse_value-to_wire v read =
    rw (sym (append-nil (write_indented v 0)), skip_ws-write_indented v 0 []) read

-- Parsing the text that `to_wire` writes for a named node gives the node back, where its names, its
-- keys and its atoms are tokens, every node in it has a field, and it keeps to the parser's bounds
-- on the nesting and on the bytes of the text.
pub parse-to_wire :
    (n : Text) (fs : Fields)
    → WellFormed (node (some n) fs)
    → height (node (some n) fs) ≤ max_depth
    → length (as_bytes (to_wire (node (some n) fs))) ≤ max_input_len
    → parse (to_wire (node (some n) fs)) ≡ ok (node (some n) fs)
unfolding skip_ws
parse-to_wire n fs formed deep short =
    let v = node (some n) fs in
    parse-short (to_wire v) short
    ∙ ap finish (parse_value-to_wire v (parse_value-write_indented max_depth v formed deep 0 []))
