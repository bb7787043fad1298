-- ===== src/Login.antt =====
-- crates/vpn-engine/src/auth.rs: the AnyConnect login, its requests, the reader of a response, and
-- the cookie of the reply.
pub mod Escape
use yellow_vpn.Common.{
  ℕ, zero, suc, ◌+◌, ◌-◌, ◌*◌, ◌/◌, ◌%◌, ◌^◌, ◌≤◌, ◌<◌, String, ◌≡◌, refl, sym, ap, ◌∙◌, ◌≢◌, ◌↔◌,
  ◌⊎◌, inl, inr, Bool, true, false, not, ◌&&◌, ◌||◌, Option, none, some, List, [], ◌∷◌, ◌++◌, map,
  append-nil, append_assoc, arith, ltb, leb, ◌==◌, if◌then◌else◌, ltb→lt, ltb→le, lt→ltb, le→ltb,
  leb→le, ==_iff, ==_self, Bool-cases, Option-cases, length, get_or, take, drop, All, length-append,
  take-append-drop, length-take, length-drop, take-length_append, drop-length_append, take-append,
  drop-append, All-append, Bytes, IsByte, as_u8, as_u16, as_u32, be16, from_be16, be32, from_be32,
  from_be16-be16, from_be32-be32, as_bytes, from_utf8_lossy, IsScalar, from_utf8_lossy-as_bytes,
  codes,
}
use yellow_vpn.Common.Str.{
  text_eq, contains, split_once, span_until, starts_with, trim, lines, split_whitespace,
  to_lowercase, decimal, is_empty, crlf,
}
use yellow_vpn.Error.{
  ensure, ◌>>◌, Text, Message, format, verbatim, caused, plain, VpnError, config, privilege, tun,
  tun_unavailable, routing, tls, protocol, auth_failed, server_disconnect, io, not_implemented,
  is_permanent, Result, ok, err, ◌>>=◌, Result-cases,
}

abbrev pub init_body : Text
init_body =
    codes
      "<?xml version=\"1.0\" encoding=\"UTF-8\"?>\n<config-auth client=\"vpn\" type=\"init\" aggregate-auth-version=\"2\">\n<version who=\"vpn\">4.10.05085</version>\n<device-id>win</device-id>\n</config-auth>"

-- `str::replace` of a character.
unfoldable pub replace : ℕ → Text → Text → Text
replace from to [] = []
replace from to (c ∷ cs) = (if c == from then to else c ∷ []) ++ replace from to cs

unfoldable pub xml_escape : Text → Text
unfolding replace
xml_escape s = replace b'\'' (codes "&apos;") (
    replace b'"' (codes "&quot;")
      (replace b'>' (codes "&gt;") (replace b'<' (codes "&lt;") (replace b'&' (codes "&amp;") s))))

unfoldable pub http_post : Text → Text → Text
unfolding decimal as_bytes
http_post host body =
    codes "POST / HTTP/1.1\r\nHost: "
    ++ (host
        ++ (codes
              "\r\nUser-Agent: AnyConnect Windows 4.10.05085\r\nX-Aggregate-Auth: 1\r\nContent-Type: application/x-www-form-urlencoded\r\nContent-Length: "
            ++ (decimal (length (as_bytes body))
                ++ (codes "\r\nConnection: keep-alive\r\n\r\n" ++ body))))

unfoldable pub build_init_request : Text → Text
unfolding http_post
build_init_request host = http_post host init_body

unfoldable pub build_auth_reply_request : Text → Text → Text → Text
unfolding http_post xml_escape
build_auth_reply_request host username password = http_post host (
    codes
      "<?xml version=\"1.0\" encoding=\"UTF-8\"?>\n<config-auth client=\"vpn\" type=\"auth-reply\" aggregate-auth-version=\"2\">\n<version who=\"vpn\">4.10.05085</version>\n<device-id>win</device-id>\n<auth>\n<username>"
    ++ (xml_escape username
        ++ (codes "</username>\n<password>"
            ++ (xml_escape password ++ codes "</password>\n</auth>\n</config-auth>"))))

abbrev pub auth_response_max : ℕ
auth_response_max = 64 * 1024

abbrev pub first_line : List Text → Text
first_line [] = []
first_line (l ∷ ls) = l

-- The second word of the status line, where it begins with a 4.
abbrev pub client_error : List Text → Option Text
client_error (a ∷ (code ∷ words)) = if starts_with (b'4' ∷ []) code then some code else none
client_error _ = none

abbrev pub cookie_of : Option (Text × Text) → Option Text
cookie_of none = none
cookie_of (some (front, rest)) =
    let value = trim (span_until (λ c. c == b';' || (c == 13 || c == 10)) rest).0 in
    if is_empty value then none else some value

abbrev pub line_cookie : Option (Text × Text) → Option Text
line_cookie none = none
line_cookie (some (name, value)) =
    if text_eq (to_lowercase (trim name)) (codes "set-cookie")
    then cookie_of (split_once (codes "webvpn=") value)
    else none

abbrev pub or_later : Option Text → Option Text → Option Text
or_later (some c) later = some c
or_later none later = later

unfoldable pub webvpn_cookie : List Text → Option Text
unfolding text_eq split_once span_until trim to_lowercase
webvpn_cookie [] = none
webvpn_cookie (l ∷ ls) = or_later (line_cookie (split_once (b':' ∷ []) l)) (webvpn_cookie ls)

abbrev pub cookie_or_fail : Option Text → Result Text
cookie_or_fail (some c) = ok c
cookie_or_fail none = err (auth_failed (plain "no webvpn session cookie in auth response"))

abbrev pub unless_rejected : Option Text → Result Text → Result Text
unless_rejected (some code) later =
    err (auth_failed (caused (plain "server rejected credentials (HTTP)") (verbatim code)))
unless_rejected none later = later

unfoldable pub parse_auth_response : Text → Result Text
unfolding webvpn_cookie lines split_whitespace contains
parse_auth_response raw =
    unless_rejected (client_error (split_whitespace (first_line (lines raw)))) (
      if contains (codes "<auth id=\"failure\"") raw
      then err (auth_failed (plain "authentication rejected by server"))
      else cookie_or_fail (webvpn_cookie (lines raw)))

-- A read from the stream: its bytes, none at the end, or the error.
pub data AuthRead : Type 0 where
  arrived : Bytes → AuthRead
  broken : Message → AuthRead

-- The response with the reads that are left, an error, or, with `waiting`, another read.
pub data Reply : Type 0 where
  replied : Text → List AuthRead → Reply
  lost : VpnError → Reply
  waiting : Reply

abbrev pub enough : Bytes → Bool
enough buf = contains (crlf ++ crlf) buf || ltb auth_response_max (length buf)

unfoldable pub read_http_response : List AuthRead → Bytes → Reply
unfolding contains
read_http_response [] buf = waiting
read_http_response (broken m ∷ reads) buf = lost (io m)
read_http_response (arrived [] ∷ reads) buf = replied (from_utf8_lossy buf) reads
read_http_response (arrived (b ∷ bs) ∷ reads) buf =
    let more = read_http_response reads (buf ++ (b ∷ bs)) in
    if enough (buf ++ (b ∷ bs)) then replied (from_utf8_lossy (buf ++ (b ∷ bs))) reads else more

abbrev pub answer : Reply → (Text → List AuthRead → Option (Result Text)) → Option (Result Text)
answer (replied raw reads) f = f raw reads
answer (lost e) f = some (err e)
answer waiting f = none

abbrev pub written : Option Message → Option (Result Text) → Option (Result Text)
written (some m) next = some (err (io m))
written none next = next

-- The reply to the credentials; `init` and `credentials` are the bytes of the two requests.
abbrev pub after_init : Bytes → Bytes → Option Message → Reply → List Bytes × Option (Result Text)
after_init init credentials reply_written (lost e) = (init ∷ [], some (err e))
after_init init credentials reply_written waiting = (init ∷ [], none)
after_init init credentials reply_written (replied init_raw reads) = (
  init ∷ credentials ∷ [],
  written reply_written
      (answer (read_http_response reads []) (λ raw rest. some (parse_auth_response raw))),
)

-- What is written, next to the cookie. The two messages are the errors of the two writes, where they
-- fail. What the first response holds does not matter.
unfoldable pub authenticate :
    Text
    → Text
    → Text
    → Option Message
    → Option Message
    → List AuthRead
    → List Bytes × Option (Result Text)
unfolding build_init_request build_auth_reply_request read_http_response parse_auth_response
    as_bytes
authenticate host username password (some m) reply_written reads =
    (as_bytes (build_init_request host) ∷ [], some (err (io m)))
authenticate host username password none reply_written reads =
    after_init (as_bytes (build_init_request host))
      (as_bytes (build_auth_reply_request host username password)) reply_written
      (read_http_response reads [])
