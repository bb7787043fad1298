-- ===== src/Checkpoint/Ccc.antt =====
-- crates/vpn-engine/src/checkpoint/ccc.rs: the tree of a CCC document, its accessors, the
-- serializer and the recursive-descent parser. A `String` is its code points, and the parser's
-- `chars` and `pos` are the characters that are left.
pub mod Total
pub mod RoundTrip
pub mod Refuse
use yellow_vpn.Common.{
  ℕ, zero, suc, ◌+◌, ◌-◌, ◌*◌, ◌/◌, ◌%◌, ◌^◌, ◌≤◌, ◌<◌, String, ◌≡◌, refl, sym, ap, ◌∙◌, ◌≢◌, ◌↔◌,
  ◌⊎◌, inl, inr, Bool, true, false, not, ◌&&◌, ◌||◌, Option, none, some, List, [], ◌∷◌, ◌++◌, map,
  append-nil, append_assoc, arith, ltb, leb, ◌==◌, if◌then◌else◌, ltb→lt, ltb→le, lt→ltb, le→ltb,
  leb→le, ==_iff, ==_self, Bool-cases, Option-cases, length, get_or, take, drop, All, length-append,
  take-append-drop, length-take, length-drop, take-length_append, drop-length_append, take-append,
  drop-append, All-append, Bytes, IsByte, as_u8, as_u16, as_u32, be16, from_be16, be32, from_be32,
  from_be16-be16, from_be32-be32, as_bytes, from_utf8_lossy, IsScalar, from_utf8_lossy-as_bytes,
  codes,
}
unfoldable pub use yellow_vpn.Common.Str.{text_eq}
use yellow_vpn.Error.{
  ensure, ◌>>◌, Text, Message, format, verbatim, caused, plain, VpnError, config, privilege, tun,
  tun_unavailable, routing, tls, protocol, auth_failed, server_disconnect, io, not_implemented,
  is_permanent, Result, ok, err, ◌>>=◌, Result-cases,
}

abbrev pub max_input_len : ℕ
max_input_len = 1_048_576

abbrev pub max_depth : ℕ
max_depth = 64

-- `Vec<(String, CccValue)>` is the second type of the block.
mutual
  pub data CccValue : Type 0 where
    empty : CccValue
    atom : Text → CccValue
    node : Option Text → Fields → CccValue

  pub data Fields : Type 0 where
    nil : Fields
    field : Text → CccValue → Fields → Fields

-- The value of the first field with the key.
unfoldable pub find_field : Text → Fields → Option CccValue
unfolding text_eq
find_field key nil = none
find_field key (field k v fs) = if text_eq k key then some v else find_field key fs

unfoldable pub get : CccValue → Text → Option CccValue
unfolding find_field
get (node name fields) key = find_field key fields
get _ key = none

abbrev pub values : Fields → List CccValue
values nil = []
values (field k v fs) = v ∷ values fs

unfoldable pub elements : CccValue → List CccValue
elements (node name fields) = values fields
elements _ = []

unfoldable pub as_atom : CccValue → Option Text
as_atom (atom s) = some s
as_atom _ = none

unfoldable pub name : CccValue → Option Text
name (node n fields) = n
name _ = none

abbrev pub tabs : ℕ → Text
tabs zero = []
tabs (suc n) = b'\t' ∷ tabs n

abbrev pub name_text : Option Text → Text
name_text none = []
name_text (some n) = n

unfoldable mutual
  pub write_indented : CccValue → ℕ → Text
  write_indented empty depth = b'(' ∷ b')' ∷ []
  write_indented (atom s) depth = b'(' ∷ (s ++ (b')' ∷ []))
  write_indented (node n fields) depth =
      b'(' ∷ (name_text n ++ (b'\n' ∷ (write_fields fields depth ++ (tabs depth ++ (b')' ∷ [])))))

  pub write_fields : Fields → ℕ → Text
  write_fields nil depth = []
  write_fields (field k v fs) depth =
      tabs (suc depth)
      ++ (b':' ∷ (k ++ (b' ' ∷ (write_indented v (suc depth) ++ (b'\n' ∷ write_fields fs depth)))))

unfoldable pub to_wire : CccValue → Text
unfolding write_indented write_fields
to_wire v = write_indented v 0

abbrev pub is_ws : ℕ → Bool
is_ws c = c == b' ' || (c == b'\t' || (c == b'\r' || c == b'\n'))

abbrev pub is_delimiter : ℕ → Bool
is_delimiter c = is_ws c || (c == b'(' || c == b')')

unfoldable pub skip_ws : Text → Text
skip_ws [] = []
skip_ws (c ∷ cs) = if is_ws c then skip_ws cs else c ∷ cs

-- Up to the closing quote, which is kept.
unfoldable pub read_quoted : Text → Text × Text
read_quoted [] = ([], [])
read_quoted (c ∷ cs) =
    let (s, rest) = read_quoted cs in if c == b'"' then (c ∷ [], cs) else (c ∷ s, rest)

unfoldable pub read_bare : Text → Text × Text
read_bare [] = ([], [])
read_bare (c ∷ cs) =
    let (s, rest) = read_bare cs in if is_delimiter c then ([], c ∷ cs) else (c ∷ s, rest)

unfoldable pub read_token : Text → Text × Text
unfolding read_quoted read_bare
read_token [] = ([], [])
read_token (c ∷ cs) =
    let (s, rest) = read_quoted cs in if c == b'"' then (c ∷ s, rest) else read_bare (c ∷ cs)

-- A parser's value with what is left to read, or its error. `stuck` is no value of the code: the
-- loop of `parse_fields` ran out of fuel.
pub data Parsed (A : Type 0) : Type 0 where
  parsed : A → Text → Parsed A
  failed : VpnError → Parsed A
  stuck : Parsed A

abbrev pub fail_with : {A : Type 0} → String → Parsed A
fail_with s = failed (protocol (plain s))

abbrev pub and_then : {A B : Type 0} → Parsed A → (A → Text → Parsed B) → Parsed B
and_then (parsed a s) f = f a s
and_then (failed e) f = failed e
and_then stuck f = stuck

-- One entry, from behind its ':' on; `value` parses the values of the fields.
unfoldable pub parse_entry : (Text → Parsed CccValue) → Text → Parsed (Text × CccValue)
unfolding skip_ws read_token
parse_entry value s =
    let (key, r) = read_token (skip_ws s) in
    and_then (value (skip_ws r)) (λ v rest. parsed (key, v) rest)

-- What the loop does at the character that it finds; `more` is its next round.
abbrev pub next_field :
    (Text → Parsed (Text × CccValue)) → (Text → Parsed Fields) → Text → Parsed Fields
next_field entry more [] = fail_with "unterminated node"
next_field entry more (c ∷ cs) =
    if c == b')'
    then parsed nil cs
    else if c == b':'
    then and_then (entry cs)
        (λ kv r. and_then (more r) (λ fs rest. parsed (field kv.0 kv.1 fs) rest))
    else fail_with "expected ':' or ')'"

-- The loop of `parse_fields`, on fuel.
unfoldable pub parse_fields : (Text → Parsed CccValue) → ℕ → Text → Parsed Fields
unfolding parse_entry skip_ws
parse_fields value zero s = stuck
parse_fields value (suc fuel) s =
    next_field (parse_entry value) (parse_fields value fuel) (skip_ws s)

-- A round of the loop reads a ':', so the length of the input bounds the rounds.
abbrev pub fields_of : (Text → Parsed CccValue) → Text → Parsed Fields
fields_of value s = parse_fields value (suc (length s)) s

-- What stands behind a token: the closing parenthesis of an atom, or the fields of a node.
abbrev pub after_token : (Text → Parsed CccValue) → Text → Text → Parsed CccValue
after_token value token [] =
    and_then (fields_of value []) (λ fs rest. parsed (node (some token) fs) rest)
after_token value token (c ∷ cs) =
    if c == b')'
    then parsed (atom token) cs
    else and_then (fields_of value (c ∷ cs)) (λ fs rest. parsed (node (some token) fs) rest)

abbrev pub with_token : (Text → Parsed CccValue) → Text × Text → Parsed CccValue
with_token value ([], rest) = fail_with "expected token"
with_token value (t ∷ ts, rest) = after_token value (t ∷ ts) (skip_ws rest)

-- What stands behind an opening parenthesis.
unfoldable pub parse_body : (Text → Parsed CccValue) → Text → Parsed CccValue
unfolding parse_fields skip_ws read_token
parse_body value [] = fail_with "unexpected end of input"
parse_body value (c ∷ cs) =
    if c == b')'
    then parsed empty cs
    else if c == b':'
    then and_then (fields_of value (c ∷ cs)) (λ fs rest. parsed (node none fs) rest)
    else with_token value (read_token (c ∷ cs))

-- The first number is `MAX_DEPTH - depth`: the levels of nesting that are left.
unfoldable pub parse_value : ℕ → Text → Parsed CccValue
unfolding parse_body skip_ws
parse_value zero s = fail_with "nesting too deep"
parse_value (suc levels) [] = fail_with "expected '('"
parse_value (suc levels) (c ∷ cs) =
    if c == b'(' then parse_body (parse_value levels) (skip_ws cs) else fail_with "expected '('"

-- Only a named node is a document.
abbrev pub document : CccValue → Result CccValue
document (node (some n) fields) = ok (node (some n) fields)
document _ = err (protocol (plain "document must be a named node"))

-- What is left behind the value.
abbrev pub finish_at : CccValue → Text → Result CccValue
finish_at v [] = document v
finish_at v (c ∷ cs) = err (protocol (plain "trailing data after document"))

-- The error for `stuck` is no error of the code.
abbrev pub finish : Parsed CccValue → Result CccValue
finish (parsed v rest) = finish_at v (skip_ws rest)
finish (failed e) = err e
finish stuck = err (protocol (plain "stuck"))

unfoldable pub parse : Text → Result CccValue
unfolding parse_value skip_ws
parse input =
    if ltb max_input_len (length (as_bytes input))
    then err (protocol (plain "input too large"))
    else finish (parse_value max_depth (skip_ws input))
