-- ===== src/Checkpoint/Auth.antt =====
-- crates/vpn-engine/src/checkpoint/auth.rs: the login and the signout requests of the Check Point
-- gateway, their transport, and what the replies mean.
pub mod Outcomes
use mathlib.Core.Option
use yellow_vpn.Common.{
  ℕ, zero, suc, ◌+◌, ◌-◌, ◌*◌, ◌/◌, ◌%◌, ◌^◌, ◌≤◌, ◌<◌, String, ◌≡◌, refl, sym, ap, ◌∙◌, ◌≢◌, ◌↔◌,
  ◌⊎◌, inl, inr, Bool, true, false, not, ◌&&◌, ◌||◌, Option, none, some, List, [], ◌∷◌, ◌++◌, map,
  append-nil, append_assoc, arith, ltb, leb, ◌==◌, if◌then◌else◌, ltb→lt, ltb→le, lt→ltb, le→ltb,
  leb→le, ==_iff, ==_self, Bool-cases, Option-cases, length, get_or, take, drop, All, length-append,
  take-append-drop, length-take, length-drop, take-length_append, drop-length_append, take-append,
  drop-append, All-append, Bytes, IsByte, as_u8, as_u16, as_u32, be16, from_be16, be32, from_be32,
  from_be16-be16, from_be32-be32, as_bytes, from_utf8_lossy, IsScalar, from_utf8_lossy-as_bytes,
  codes,
}
use yellow_vpn.Common.Str.{
  crlf, text_eq, split_once, span_until, trim_by, is_whitespace, decimal, parse_nat, u16_max,
  u32_max,
}
use yellow_vpn.Error.{
  ensure, ◌>>◌, Text, Message, format, verbatim, caused, plain, VpnError, config, privilege, tun,
  tun_unavailable, routing, tls, protocol, auth_failed, server_disconnect, io, not_implemented,
  is_permanent, Result, ok, err, ◌>>=◌, Result-cases,
}
use yellow_vpn.Checkpoint.Ccc.{
  CccValue, empty, atom, node, Fields, nil, field, get, as_atom, name, to_wire, parse,
}
use yellow_vpn.Checkpoint.Cipher.{encode, decode}

abbrev pub default_tcpt_port : ℕ
default_tcpt_port = 443

-- The key is kept as it arrives, obfuscated.
pub record CccSession : Type 0 where
  pub session_id : Text
  pub active_key : Text
  pub tcpt_port : ℕ

abbrev pub lossy : Result Bytes → Result Text
lossy (ok bytes) = ok (from_utf8_lossy bytes)
lossy (err e) = err e

unfoldable pub active_key_deobfuscated : CccSession → Result Text
unfolding decode
active_key_deobfuscated s = lossy (decode s.active_key)

abbrev pub request_of : CccValue → CccValue → CccValue
request_of header data_ =
    node (some (codes "CCCclientRequest"))
      (field (codes "RequestHeader") header (field (codes "RequestData") data_ nil))

abbrev pub header_of : ℕ → Text → CccValue → CccValue
header_of id kind session = node none (
    field (codes "id") (atom (decimal id))
      (field (codes "type") (atom kind) (field (codes "session_id") session nil)))

abbrev pub credentials : Text → Text → CccValue
credentials username password = node none (
    field (codes "client_type") (atom (codes "TRAC")) (
      field (codes "username") (atom (encode username))
        (field (codes "password") (atom (encode password)) nil)))

unfoldable pub build_userpass_request : Text → Text → ℕ → Text
unfolding decimal encode to_wire
build_userpass_request username password id =
    to_wire (request_of (header_of id (codes "UserPass") empty) (credentials username password))

-- `and_then` of `get` and `as_atom` on a value that may be missing.
abbrev pub atom_in : Text → Option CccValue → Option Text
atom_in key v = Option.bind (Option.bind v (λ d. get d key)) as_atom

abbrev pub or_first : Option Text → Option Text → Option Text
or_first (some a) b = some a
or_first none b = b

abbrev pub text_or : Option Text → Text → Text
text_or (some t) d = t
text_or none d = d

abbrev pub port_or : Option ℕ → ℕ → ℕ
port_or (some p) d = p
port_or none d = d

-- `ok_or_else`.
abbrev pub required {ℓ} : {A : Type ℓ} → Option A → VpnError → Result A
required (some a) e = ok a
required none e = err e

abbrev pub named_response : CccValue → Bool
named_response doc = text_eq (text_or (name doc) []) (codes "CCCserverResponse")

unfoldable pub return_code : CccValue → Option ℕ
unfolding get as_atom parse_nat Option.bind
return_code doc =
    Option.bind (atom_in (codes "return_code") (get doc (codes "ResponseHeader")))
      (parse_nat u32_max)

abbrev pub session_id_of : CccValue → Text
session_id_of doc =
    text_or
      (or_first (atom_in (codes "session_id") (get doc (codes "ResponseHeader")))
        (atom_in (codes "session_id") (get doc (codes "ResponseData"))))
      []

abbrev pub port_of : CccValue → ℕ
port_of doc =
    port_or
      (Option.bind
        (atom_in (codes "tcpt_port")
          (Option.bind (get doc (codes "ResponseData")) (λ d. get d (codes "connectivity_info"))))
        (parse_nat u16_max))
      default_tcpt_port

abbrev pub rejected : ℕ → VpnError
rejected rc = auth_failed (format "server rejected authentication (return_code {})" (rc ∷ []))

-- What a document means.
unfoldable pub read_response : CccValue → Result CccSession
unfolding return_code
read_response doc = do
  ensure (named_response doc) (protocol (plain "not a CCCserverResponse"))
  rc ← required (return_code doc) (protocol (plain "missing/invalid return_code"))
  ensure (rc == 600) (rejected rc)
  active_key ←
      required (atom_in (codes "active_key") (get doc (codes "ResponseData")))
        (protocol (plain "600 response missing active_key"))
  ok (record { session_id = session_id_of doc; active_key = active_key; tcpt_port = port_of doc })

unfoldable pub parse_ccc_response : Text → Result CccSession
unfolding parse read_response
parse_ccc_response body = do doc ← parse body; read_response doc

unfoldable pub build_signout_request : Text → ℕ → Text
unfolding decimal to_wire
build_signout_request session_id id =
    to_wire (request_of (header_of id (codes "Signout") (atom session_id)) empty)

abbrev pub auth_response_max : ℕ
auth_response_max = 256 * 1024

unfoldable pub http_post_clients : Text → Text → Text
unfolding decimal
http_post_clients host body =
    codes "POST /clients/ HTTP/1.1"
    ++ (crlf
        ++ (codes "Host: "
            ++ (host
                ++ (crlf
                    ++ (codes "User-Agent: TRAC/E"
                        ++ (crlf
                            ++ (codes "Content-Type: text/plain"
                                ++ (crlf
                                    ++ (codes "Content-Length: "
                                        ++ (decimal (length (as_bytes body))
                                            ++ (crlf
                                                ++ (codes "Connection: close"
                                                    ++ (crlf ++ (crlf ++ body))))))))))))))

-- A read from the stream: its bytes, none at the end; the end without a notice of it; or an error.
pub data AuthRead : Type 0 where
  arrived : Bytes → AuthRead
  cut_off : AuthRead
  broken : Message → AuthRead

abbrev pub from_open : Text → Text × Text → Text
from_open raw (front, []) = raw
from_open raw (front, c ∷ cs) = c ∷ cs

-- Behind the first empty line, else from the first parenthesis on.
abbrev pub body_part : Text → Option (Text × Text) → Text
body_part raw (some (head, body)) = body
body_part raw none = from_open raw (span_until (λ c. c == b'(') raw)

unfoldable pub body_text : Text → Text
unfolding split_once span_until trim_by is_whitespace
body_text raw =
    trim_by (λ c. c == 0 || is_whitespace c) (body_part raw (split_once (crlf ++ crlf) raw))

abbrev pub finish_body : Bytes → Result Text
finish_body buf = ok (body_text (from_utf8_lossy buf))

-- The loop, on what the reads answer; `none` while it waits for another.
unfoldable pub read_http_body : List AuthRead → Bytes → Option (Result Text)
unfolding body_text
read_http_body [] buf = none
read_http_body (arrived [] ∷ reads) buf = some (finish_body buf)
read_http_body (arrived (b ∷ bs) ∷ reads) buf =
    let rest = read_http_body reads (buf ++ (b ∷ bs)) in
    if ltb auth_response_max (length (buf ++ (b ∷ bs)))
    then some (finish_body (buf ++ (b ∷ bs)))
    else rest
read_http_body (cut_off ∷ reads) buf = some (finish_body buf)
read_http_body (broken m ∷ reads) buf = some (err (io m))

abbrev pub with_body : {A : Type 0} → Option (Result Text) → (Text → Result A) → Option (Result A)
with_body none f = none
with_body (some r) f = some (r >>= f)

unfoldable pub login_bytes : Text → Text → Text → Bytes
unfolding http_post_clients build_userpass_request
login_bytes host username password =
    as_bytes (http_post_clients host (build_userpass_request username password 1))

-- What is written, next to the answer. `connected` is the answer of the TLS connection, `written`
-- the error of the write or of the flush, if there is one.
abbrev pub exchange :
    {A : Type 0}
    → Bytes
    → (Text → Result A)
    → (connected : Result (Unit {0})) → (written : Option Message) → List AuthRead
    → Bytes × Option (Result A)
exchange request f (err e) written reads = ([], some (err e))
exchange request f (ok u) (some m) reads = (request, some (err (io m)))
exchange request f (ok u) none reads = (request, with_body (read_http_body reads []) f)

unfoldable pub authenticate_checkpoint :
    Text
    → Text
    → Text
    → Result (Unit {0})
    → Option Message
    → List AuthRead
    → Bytes × Option (Result CccSession)
unfolding login_bytes read_http_body parse_ccc_response
authenticate_checkpoint host username password =
    exchange (login_bytes host username password) parse_ccc_response

unfoldable pub check_signout : Text → Result (Unit {0})
unfolding parse name text_eq
check_signout body = do
  doc ← parse body
  ensure (named_response doc) (protocol (plain "signout: not a CCCserverResponse"))

unfoldable pub signout_bytes : Text → Text → Bytes
unfolding http_post_clients build_signout_request
signout_bytes host session_id =
    as_bytes (http_post_clients host (build_signout_request session_id 2))

unfoldable pub signout_checkpoint :
    Text
    → Text
    → Result (Unit {0})
    → Option Message
    → List AuthRead
    → Bytes × Option (Result (Unit {0}))
unfolding signout_bytes read_http_body check_signout
signout_checkpoint host session_id = exchange (signout_bytes host session_id) check_signout
