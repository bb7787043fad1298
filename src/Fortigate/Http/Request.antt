-- ===== src/Fortigate/Http/Request.antt =====
-- crates/vpn-engine/src/fortigate/http.rs: reading a response, one request, and the session that
-- keeps a connection and tries a failed request once more.
pub mod Kept
use yellow_vpn.Common.{
  ℕ, zero, suc, ◌+◌, ◌-◌, ◌*◌, ◌/◌, ◌%◌, ◌^◌, ◌≤◌, ◌<◌, String, ◌≡◌, refl, sym, ap, ◌∙◌, ◌≢◌, ◌↔◌,
  ◌⊎◌, inl, inr, Bool, true, false, not, ◌&&◌, ◌||◌, Option, none, some, List, [], ◌∷◌, ◌++◌, map,
  append-nil, append_assoc, arith, ltb, leb, ◌==◌, if◌then◌else◌, ltb→lt, ltb→le, lt→ltb, le→ltb,
  leb→le, ==_iff, ==_self, Bool-cases, Option-cases, length, get_or, take, drop, All, length-append,
  take-append-drop, length-take, length-drop, take-length_append, drop-length_append, take-append,
  drop-append, All-append, Bytes, IsByte, as_u8, as_u16, as_u32, be16, from_be16, be32, from_be32,
  from_be16-be16, from_be32-be32, as_bytes, from_utf8_lossy, IsScalar, from_utf8_lossy-as_bytes,
  codes,
}
use yellow_vpn.Common.Str.{text_eq, contains, trim, to_lowercase, parse_nat, u64_max}
use yellow_vpn.Error.{
  Text, Message, format, verbatim, caused, plain, VpnError, config, privilege, tun, tun_unavailable,
  routing, tls, protocol, auth_failed, server_disconnect, io, not_implemented, is_permanent, Result,
  ok, err, ◌>>=◌, Result-cases,
}
use yellow_vpn.Fortigate.Http.{
  response_max, HeaderList, HttpResponse, first_value, header, header_end, parse_head, Decoded,
  complete, incomplete, panicked, stuck, malformed, decode_chunked,
}

-- The end of the header block, the status and the headers.
pub record Head : Type 0 where
  pub end : ℕ
  pub status : ℕ
  pub headers : HeaderList

abbrev pub new_head : ℕ → Result (ℕ × HeaderList) → Result (Option Head)
new_head end (err e) = err e
new_head end (ok (status, headers)) =
    ok (some (record { end = end; status = status; headers = headers }))

abbrev pub parsed_head : Option (Bytes × Bytes) → Result (Option Head)
parsed_head none = ok none
parsed_head (some (block, rest)) = new_head (length block) (parse_head (from_utf8_lossy block))

-- The head is parsed once, as soon as it is complete.
unfoldable pub find_head : Option Head → Bytes → Result (Option Head)
unfolding header_end parse_head
find_head (some h) buf = ok (some h)
find_head none buf = parsed_head (header_end buf)

unfoldable pub is_chunked : HeaderList → Bool
unfolding text_eq contains to_lowercase
is_chunked [] = false
is_chunked ((k, v) ∷ hs) =
    (text_eq k (codes "transfer-encoding") && contains (codes "chunked") (to_lowercase v))
    || is_chunked hs

abbrev pub length_value : Option Text → Option ℕ
length_value none = none
length_value (some v) = parse_nat u64_max (trim v)

unfoldable pub content_length : HeaderList → Option ℕ
unfolding first_value parse_nat trim
content_length hs = length_value (first_value (codes "content-length") hs)

abbrev pub response : Head → Bytes → HttpResponse
response h body = record { status = h.status; headers = h.headers; body = body }

-- What the buffer gives: an answer, a panic, or the need to read on.
pub data Delimited : Type 0 where
  done : Result HttpResponse → Delimited
  read_on crash : Delimited

-- The decoder's `stuck` is no behaviour of the code.
abbrev pub of_decoded : Head → Decoded → Delimited
of_decoded h (complete body) = done (ok (response h body))
of_decoded h incomplete = read_on
of_decoded h (malformed e) = done (err e)
of_decoded h panicked = crash
of_decoded h stuck = crash

abbrev pub by_length : Head → Bytes → Option ℕ → Delimited
by_length h rest none = read_on
by_length h rest (some n) =
    if ltb response_max n
    then done (err (protocol (plain "Content-Length exceeds size guard")))
    else if leb n (length rest)
    then done (ok (response h (take n rest)))
    else read_on

unfoldable pub delimit : Option Head → Bytes → Delimited
unfolding is_chunked content_length decode_chunked
delimit none buf = read_on
delimit (some h) buf =
    let rest = drop h.end buf in
    if is_chunked h.headers
    then of_decoded h (decode_chunked rest)
    else by_length h rest (content_length h.headers)

-- A read from the stream: its bytes, none at the end; the end without a notice of it; or an error.
pub data HttpRead : Type 0 where
  arrived : Bytes → HttpRead
  cut_off : HttpRead
  broken : Message → HttpRead

-- The end of the stream: what stands behind the head is the body.
abbrev pub at_eof : Option Head → Bytes → Result HttpResponse
at_eof none buf = err (protocol (plain "connection closed before HTTP headers completed"))
at_eof (some h) buf = ok (response h (drop h.end buf))

-- An answer, a panic, or, with `waiting`, another read.
pub data Reading : Type 0 where
  answered : Result HttpResponse → Reading
  died waiting : Reading

abbrev pub on_read : (Bytes → Reading) → Option Head → Bytes → HttpRead → Reading
on_read more head buf (arrived []) = answered (at_eof head buf)
on_read more head buf (arrived (b ∷ bs)) = more (buf ++ (b ∷ bs))
on_read more head buf cut_off = answered (at_eof head buf)
on_read more head buf (broken m) = answered (err (io m))

abbrev pub on_delimited : Reading → Bytes → Delimited → Reading
on_delimited next buf (done r) = answered r
on_delimited next buf crash = died
on_delimited next buf read_on =
    if ltb response_max (length buf)
    then answered (err (protocol (plain "HTTP response exceeded size guard")))
    else next

abbrev pub with_head : (Option Head → Reading) → Result (Option Head) → Reading
with_head f (err e) = answered (err e)
with_head f (ok head) = f head

-- The loop, on what the reads answer.
unfoldable pub read_response : List HttpRead → Option Head → Bytes → Reading
unfolding find_head delimit
read_response [] head buf =
    with_head (λ head'. on_delimited waiting buf (delimit head' buf)) (find_head head buf)
read_response (r ∷ reads) head buf =
    with_head
      (λ head'.
        on_delimited (on_read (λ buf'. read_response reads head' buf') head' buf r) buf
          (delimit head' buf))
      (find_head head buf)

-- A request that waits for a read beyond those that come is timed out; `none` is a panic.
abbrev pub in_time : Text → Text → Reading → Option (Result HttpResponse)
in_time method path (answered r) = some r
in_time method path died = none
in_time method path waiting = some (
    err (
      tls (
        caused (plain "timed out reading FortiGate response for")
          (verbatim (method ++ (b' ' ∷ path))))))

-- `written` is the error of the write or of the flush, if there is one.
unfoldable pub request_on :
    Text → Text → Option Message → List HttpRead → Option (Result HttpResponse)
unfolding read_response
request_on method path (some m) reads = some (err (io m))
request_on method path none reads = in_time method path (read_response reads none [])

-- What the network answers in one of the two attempts.
pub record Attempt : Type 0 where
  pub connected : Result (Unit {0})
  pub written : Option Message
  pub reads : List HttpRead

abbrev pub closes : Option Text → Bool
closes none = false
closes (some v) = text_eq (to_lowercase v) (codes "close")

-- The answer, `none` for a panic, with whether the connection is kept.
abbrev pub Answer : Type 0
Answer = Option (Result HttpResponse) × Bool

abbrev pub settle : Answer → Option (Result HttpResponse) → Answer
settle failed none = (none, false)
settle failed (some (ok r)) = (some (ok r), not (closes (header r (codes "connection"))))
settle failed (some (err e)) = failed

abbrev pub on_connected : Result (Unit {0}) → Answer → Answer
on_connected (err e) sent = (some (err e), false)
on_connected (ok u) sent = sent

abbrev pub failure : Option (Result HttpResponse) → Answer
failure r = (r, false)

-- The second attempt: there is no connection.
unfoldable pub try_again : Text → Text → Attempt → Answer
unfolding request_on header text_eq to_lowercase
try_again method path b =
    let r = request_on method path b.written b.reads in
    on_connected b.connected (settle (failure r) r)

-- `HttpSession::request`; the Boolean is whether a connection is kept from before.
unfoldable pub request : Bool → Text → Text → Attempt → Attempt → Answer
unfolding request_on try_again header text_eq to_lowercase
request kept method path a b =
    let sent = settle (try_again method path b) (request_on method path a.written a.reads) in
    if kept then sent else on_connected a.connected sent
