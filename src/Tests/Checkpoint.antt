-- ===== src/Tests/Checkpoint.antt =====
-- crates/vpn-engine/src/checkpoint: the CCC documents, the login, the ranges and the session.
use yellow_vpn.Common.{
  ◌≤◌, ◌≡◌, refl, ◌↔◌, inl, Bool, true, ◌&&◌, none, some, List, [], ◌∷◌, map, arith, ltb, leb,
  length, take, drop, All, Bytes, IsByte, as_bytes, IsScalar, codes,
}
use yellow_vpn.Error.{Text, is_permanent, ok, err}
use yellow_vpn.Ipv4.{ipv4, to_u32}
use yellow_vpn.Checkpoint.Ccc.{
  CccValue, atom, node, Fields, nil, field, to_wire, parse, parse_value, max_input_len, name,
}
use yellow_vpn.Checkpoint.Ccc.Total.{Within, parse_value-Within}
use yellow_vpn.Checkpoint.Ccc.RoundTrip.{
  WellFormed, IsToken, is_bare_token, is_bare_token-IsToken, parse-to_wire,
}
use yellow_vpn.Checkpoint.Cipher.{obfuscate}
use yellow_vpn.Checkpoint.Ranges.{range_to_subnets}
use yellow_vpn.Checkpoint.Ranges.Cover.{matched, matched-range_to_subnets}
use yellow_vpn.Checkpoint.Framing.{encode_control}
use yellow_vpn.Checkpoint.Session.{
  arrived, establish_session, parse_hello_reply, default_hello_opts, session_of,
  hello_reply_max_bytes,
}
use yellow_vpn.Checkpoint.Session.Routes.{any_holds, ranges, matched-parse_hello_reply}
use yellow_vpn.Framer.Stream.{concat}
use yellow_vpn.Checkpoint.Session.Reply.{AllNonEmpty, establish_session-encode_control}
use yellow_vpn.Checkpoint.Auth.{default_tcpt_port, parse_ccc_response, rejected}
use yellow_vpn.Checkpoint.Auth.Outcomes.{
  Rejects, is_permanent-parse_ccc_response, success_reply, parse_ccc_response-to_wire,
}

-- (hello_reply :OM (:ipaddr (10.0.0.2)) :range (: (:from (10.1.0.0) :to (10.1.0.255))))
abbrev om : Fields
om = field (codes "ipaddr") (atom (codes "10.0.0.2")) nil

abbrev reply_fields : Fields
reply_fields = field (codes "OM") (node none om) nil

reply_formed : WellFormed (node (some (codes "hello_reply")) reply_fields)
unfolding is_bare_token
reply_formed = (
  is_bare_token-IsToken (codes "hello_reply") refl,
  (
    is_bare_token-IsToken (codes "OM") refl,
    (
      (
        tt,
        (
          is_bare_token-IsToken (codes "ipaddr") refl,
          (is_bare_token-IsToken (codes "10.0.0.2") refl, tt),
        ),
      ),
      tt,
    ),
  ),
)

abbrev reply : CccValue
reply = node (some (codes "hello_reply")) reply_fields

reply_short : length (as_bytes (to_wire reply)) ≤ max_input_len
unfolding as_bytes to_wire
reply_short = omega arith

parse-to_wire_example : parse (to_wire reply) ≡ ok reply
parse-to_wire_example =
    parse-to_wire (codes "hello_reply") reply_fields reply_formed (omega arith) reply_short

parse_value-Within_example : Within (length (codes "(a:b (c")) (parse_value 3 (codes "(a:b (c"))
parse_value-Within_example = parse_value-Within 3 (codes "(a:b (c")

password_bytes : All IsByte (as_bytes (codes "pw1"))
unfolding as_bytes
password_bytes = (omega arith, (omega arith, (omega arith, tt)))

-- A zero byte and the byte 0xFF are obfuscated to one byte.
zero_lost : obfuscate (0 ∷ []) ≡ obfuscate (0xFF ∷ [])
unfolding obfuscate
zero_lost = refl

matched-range_to_subnets_example :
    matched (range_to_subnets (ipv4 10 1 0 3) (ipv4 10 1 1 9)) (to_u32 (ipv4 10 1 1 0)) ≡ (
      leb (to_u32 (ipv4 10 1 0 3)) (to_u32 (ipv4 10 1 1 0))
      && leb (to_u32 (ipv4 10 1 1 0)) (to_u32 (ipv4 10 1 1 9)))
matched-range_to_subnets_example =
    matched-range_to_subnets (ipv4 10 1 0 3) (ipv4 10 1 1 9) (to_u32 (ipv4 10 1 1 0)) (omega arith)

abbrev ranged : CccValue
ranged = node (some (codes "hello_reply")) (
    field (codes "OM") (node none om) (
      field (codes "range")
        (node none (
          field []
            (node none (
              field (codes "from") (atom (codes "10.1.0.0"))
                (field (codes "to") (atom (codes "10.1.0.255")) nil)))
            nil))
        nil))

ranged_read : parse_hello_reply ranged ≡ ok (session_of ranged (ipv4 10 0 0 2))
unfolding parse_hello_reply
ranged_read = refl

matched-parse_hello_reply_example :
    matched (session_of ranged (ipv4 10 0 0 2)).routes (to_u32 (ipv4 10 1 0 7))
    ≡ any_holds (ranges ranged) (to_u32 (ipv4 10 1 0 7))
matched-parse_hello_reply_example =
    matched-parse_hello_reply ranged (to_u32 (ipv4 10 1 0 7)) ranged_read

-- The frame of the reply, in two reads.
abbrev cut : List Bytes
cut = take 20 (encode_control (to_wire reply)) ∷ drop 20 (encode_control (to_wire reply)) ∷ []

is_ascii : Text → Bool
is_ascii [] = true
is_ascii (c ∷ cs) = ltb c 128 && is_ascii cs

is_ascii-IsScalar : (s : Text) → is_ascii s ≡ true → All IsScalar s
unfolding is_ascii
is_ascii-IsScalar [] h = tt
is_ascii-IsScalar (c ∷ cs) h = (inl (ground arith), is_ascii-IsScalar cs (ground arith))

reply_scalars : All IsScalar (to_wire reply)
reply_scalars = is_ascii-IsScalar (to_wire reply) (unfold is_ascii to_wire in refl)

reply_small : length (encode_control (to_wire reply)) ≤ hello_reply_max_bytes
unfolding encode_control to_wire as_bytes
reply_small = omega arith

reply_cut : AllNonEmpty cut
unfolding encode_control to_wire as_bytes
reply_cut = ((λ e. cc), ((λ e. cc), tt))

cut_whole : concat cut ≡ encode_control (to_wire reply)
unfolding encode_control to_wire as_bytes
cut_whole = refl

establish_session-encode_control_example :
    (establish_session (codes "k") default_hello_opts none (map arrived cut)).1
    ≡ some (parse_hello_reply reply)
establish_session-encode_control_example =
    establish_session-encode_control (codes "k") default_hello_opts (to_wire reply) reply cut
      reply_scalars parse-to_wire_example reply_small reply_cut cut_whole

refusal_text : Text
refusal_text = codes "(CCCserverResponse :ResponseHeader (:return_code (603)))"

refusal_answer : parse_ccc_response refusal_text ≡ err (rejected 603)
unfolding refusal_text parse_ccc_response as_bytes name
refusal_answer = refl

is_permanent-parse_ccc_response_example : is_permanent (rejected 603) ≡ true ↔ Rejects refusal_text
is_permanent-parse_ccc_response_example =
    is_permanent-parse_ccc_response refusal_text refusal_answer

success_short :
    length (as_bytes (to_wire (success_reply (codes "s1") (codes "0a0b")))) ≤ max_input_len
unfolding as_bytes to_wire
success_short = omega arith

s1-IsToken : IsToken (codes "s1")
unfolding is_bare_token
s1-IsToken = is_bare_token-IsToken (codes "s1") refl

key-IsToken : IsToken (codes "0a0b")
unfolding is_bare_token
key-IsToken = is_bare_token-IsToken (codes "0a0b") refl

parse_ccc_response-to_wire_example :
    parse_ccc_response (to_wire (success_reply (codes "s1") (codes "0a0b")))
    ≡ ok (record {
      session_id = codes "s1";
      active_key = codes "0a0b";
      tcpt_port = default_tcpt_port;
    })
parse_ccc_response-to_wire_example =
    parse_ccc_response-to_wire (codes "s1") (codes "0a0b") s1-IsToken key-IsToken success_short
