-- ===== src/Fortigate/Http.antt =====
-- crates/vpn-engine/src/fortigate/http.rs: requests, the delimiting of a response, and the session
-- that keeps a connection. A `usize` has 64 bits, and its sums wrap around, as in a release build.
pub mod Chunks
pub mod SetCookie
pub mod Request
use yellow_vpn.Common.{
  ℕ, zero, suc, ◌+◌, ◌-◌, ◌*◌, ◌/◌, ◌%◌, ◌^◌, ◌≤◌, ◌<◌, String, ◌≡◌, refl, sym, ap, ◌∙◌, ◌≢◌, ◌↔◌,
  ◌⊎◌, inl, inr, Bool, true, false, not, ◌&&◌, ◌||◌, Option, none, some, List, [], ◌∷◌, ◌++◌, map,
  append-nil, append_assoc, arith, ltb, leb, ◌==◌, if◌then◌else◌, ltb→lt, ltb→le, lt→ltb, le→ltb,
  leb→le, ==_iff, ==_self, Bool-cases, Option-cases, length, get_or, take, drop, All, length-append,
  take-append-drop, length-take, length-drop, take-length_append, drop-length_append, take-append,
  drop-append, All-append, Bytes, IsByte, as_u8, as_u16, as_u32, be16, from_be16, be32, from_be32,
  from_be16-be16, from_be32-be32, as_bytes, from_utf8_lossy, IsScalar, from_utf8_lossy-as_bytes,
  codes,
}
use yellow_vpn.Common.Str.{
  crlf, text_eq, contains, split_once, split_on, span_until, trim, lines, split_whitespace,
  to_lowercase, is_alphanumeric, decimal, parse_unsigned, parse_nat, u16_max, u64_max, is_empty,
}
use yellow_vpn.Error.{
  ensure, ◌>>◌, Text, Message, format, verbatim, caused, plain, VpnError, config, privilege, tun,
  tun_unavailable, routing, tls, protocol, auth_failed, server_disconnect, io, not_implemented,
  is_permanent, Result, ok, err, ◌>>=◌, Result-cases,
}

abbrev pub response_max : ℕ
response_max = 256 * 1024

abbrev pub as_usize : ℕ → ℕ
as_usize n = n % 2 ^ 64

abbrev pub HeaderList : Type 0
HeaderList = List (Text × Text)

pub record HttpResponse : Type 0 where
  pub status : ℕ
  pub headers : HeaderList
  pub body : Bytes

unfoldable pub first_value : Text → HeaderList → Option Text
unfolding text_eq
first_value name [] = none
first_value name ((k, v) ∷ hs) = if text_eq k name then some v else first_value name hs

unfoldable pub header : HttpResponse → Text → Option Text
unfolding first_value to_lowercase
header r name = first_value (to_lowercase name) r.headers

-- The character in front of a match must not be part of a cookie's name.
abbrev pub in_name : Text → Bool
in_name [] = false
in_name (c ∷ []) = is_alphanumeric c || (c == b'_' || c == b'-')
in_name (c ∷ (d ∷ ds)) = in_name (d ∷ ds)

abbrev pub usable : Text → Option Text → Option Text
usable value found = if is_empty value || text_eq value (b'0' ∷ []) then found else some value

abbrev pub cookie_in : Option (Text × Text) → Option Text → Option Text
cookie_in none found = found
cookie_in (some (front, rest)) found =
    if in_name front
    then found
    else usable (trim (span_until (λ c. c == b';' || c == b',') rest).0) found

unfoldable pub last_cookie : Text → HeaderList → Option Text → Option Text
unfolding text_eq split_once span_until trim
last_cookie name [] found = found
last_cookie name ((k, v) ∷ hs) found = last_cookie name hs (
    if text_eq k (codes "set-cookie")
    then cookie_in (split_once (name ++ (b'=' ∷ [])) v) found
    else found)

unfoldable pub cookie : HttpResponse → Text → Option Text
unfolding last_cookie
cookie r name = last_cookie name r.headers none

abbrev pub cookie_line : Option Text → Text
cookie_line none = []
cookie_line (some c) = codes "Cookie: " ++ (c ++ crlf)

abbrev pub body_lines : Option Text → Text
body_lines none = crlf
body_lines (some b) =
    codes "Content-Type: application/x-www-form-urlencoded"
    ++ (crlf
        ++ (codes "Content-Length: " ++ (decimal (length (as_bytes b)) ++ (crlf ++ (crlf ++ b)))))

unfoldable pub build_request : Text → Text → Text → Text → Option Text → Option Text → Text
unfolding decimal as_bytes
build_request method path host user_agent cookie_value body =
    method
    ++ (b' '
        ∷ (path
            ++ (codes " HTTP/1.1"
                ++ (crlf
                    ++ (codes "Host: "
                        ++ (host
                            ++ (crlf
                                ++ (codes "User-Agent: "
                                    ++ (user_agent
                                        ++ (crlf
                                            ++ (codes "Accept: */*"
                                                ++ (crlf
                                                    ++ (cookie_line cookie_value
                                                        ++ body_lines body)))))))))))))

-- The header block with its end, and what follows.
abbrev pub with_end : Option (Bytes × Bytes) → Option (Bytes × Bytes)
with_end none = none
with_end (some (front, rest)) = some (front ++ (crlf ++ crlf), rest)

unfoldable pub header_end : Bytes → Option (Bytes × Bytes)
unfolding split_once
header_end buf = with_end (split_once (crlf ++ crlf) buf)

abbrev pub second : List Text → Option Text
second (a ∷ (b ∷ cs)) = some b
second _ = none

abbrev pub status_of : Text → Option Text → Result ℕ
status_of line none = err (protocol (caused (plain "malformed HTTP status line") (verbatim line)))
status_of line (some code) = elim (parse_nat u16_max code) [
  | none ↦ err (protocol (caused (plain "malformed HTTP status line") (verbatim line)))
  | some status ↦ ok status
]

abbrev pub add_header : Option (Text × Text) → HeaderList → HeaderList
add_header none hs = hs
add_header (some (k, v)) hs = (to_lowercase (trim k), trim v) ∷ hs

unfoldable pub header_list : List Text → HeaderList
unfolding split_once trim to_lowercase
header_list [] = []
header_list (l ∷ ls) = add_header (split_once (b':' ∷ []) l) (header_list ls)

abbrev pub parse_lines : List Text → Result (ℕ × HeaderList)
parse_lines [] = err (protocol (plain "empty HTTP response"))
parse_lines (line ∷ rest) = do
  status ← status_of line (second (split_whitespace line))
  ok (status, header_list rest)

unfoldable pub parse_head : Text → Result (ℕ × HeaderList)
unfolding lines split_whitespace parse_nat header_list
parse_head head = parse_lines (lines head)

-- `str::from_utf8`: the bytes are those of the text that they are read as.
unfoldable pub from_utf8 : Bytes → Option Text
unfolding from_utf8_lossy as_bytes text_eq
from_utf8 bytes =
    let s = from_utf8_lossy bytes in if text_eq (as_bytes s) bytes then some s else none

-- `buf[from..to]`, which panics out of range.
abbrev pub slice : Bytes → ℕ → ℕ → Option Bytes
slice buf from to =
    if leb from to && leb to (length buf) then some (take (to - from) (drop from buf)) else none

-- What `decode_chunked` answers: a body, `None`, an error, a panic; `stuck` is fuel that ran out.
pub data Decoded : Type 0 where
  complete : Bytes → Decoded
  incomplete panicked stuck : Decoded
  malformed : VpnError → Decoded

-- A chunk's size, from the line in front of it.
abbrev pub size_text : Option Text → Result ℕ
size_text none = err (protocol (plain "non-UTF8 chunk size"))
size_text (some s) = elim (parse_unsigned 16 u64_max (trim s)) [
  | none ↦ err (protocol (caused (plain "bad chunk size") (verbatim (trim s))))
  | some n ↦ ok n
]

unfoldable pub chunk_size : Bytes → Result ℕ
unfolding span_until from_utf8 parse_unsigned trim
chunk_size line = size_text (from_utf8 (span_until (λ b. b == b';') line).0)

abbrev pub append_chunk : (Bytes → Decoded) → Bytes → Option Bytes → Decoded
append_chunk more out none = panicked
append_chunk more out (some data_) = more (out ++ data_)

-- A chunk of so many bytes, whose data starts at the position.
abbrev pub on_size : (ℕ → Bytes → Decoded) → Bytes → ℕ → Bytes → Result ℕ → Decoded
on_size more buf pos out (err e) = malformed e
on_size more buf pos out (ok size) =
    if size == 0
    then complete out
    else if ltb response_max (as_usize (length out + size))
    then malformed (protocol (plain "chunked body exceeded size guard"))
    else if ltb (length buf) (as_usize (pos + size + 2))
    then incomplete
    else append_chunk (more (as_usize (pos + (size + 2)))) out
        (slice buf pos (as_usize (pos + size)))

abbrev pub on_size_line :
    (ℕ → Bytes → Decoded) → Bytes → ℕ → Bytes → Option (Bytes × Bytes) → Decoded
on_size_line more buf pos out none = incomplete
on_size_line more buf pos out (some (line, rest)) =
    on_size more buf (pos + length line + 2) out (chunk_size line)

-- The loop, from a position on; the first number is fuel.
unfoldable pub decode_from : ℕ → Bytes → ℕ → Bytes → Decoded
unfolding split_once chunk_size
decode_from zero buf pos out = stuck
decode_from (suc fuel) buf pos out =
    on_size_line (decode_from fuel buf) buf pos out (split_once crlf (drop pos buf))

-- A round passes a line end, so the length of the buffer bounds the rounds.
unfoldable pub decode_chunked : Bytes → Decoded
unfolding decode_from
decode_chunked buf = decode_from (suc (length buf)) buf 0 []
