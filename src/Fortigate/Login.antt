-- ===== src/Fortigate/Login.antt =====
-- crates/vpn-engine/src/fortigate/auth.rs: the login form, what its reply means, and the rounds of
-- a login. The answers of `HttpSession::request` are arguments.
pub mod Form
pub mod Cookie
use yellow_vpn.Common.{
  ℕ, zero, suc, ◌+◌, ◌-◌, ◌*◌, ◌/◌, ◌%◌, ◌^◌, ◌≤◌, ◌<◌, String, ◌≡◌, refl, sym, ap, ◌∙◌, ◌≢◌, ◌↔◌,
  ◌⊎◌, inl, inr, Bool, true, false, not, ◌&&◌, ◌||◌, Option, none, some, List, [], ◌∷◌, ◌++◌, map,
  append-nil, append_assoc, arith, ltb, leb, ◌==◌, if◌then◌else◌, ltb→lt, ltb→le, lt→ltb, le→ltb,
  leb→le, ==_iff, ==_self, Bool-cases, Option-cases, length, get_or, take, drop, All, length-append,
  take-append-drop, length-take, length-drop, take-length_append, drop-length_append, take-append,
  drop-append, All-append, Bytes, IsByte, as_u8, as_u16, as_u32, be16, from_be16, be32, from_be32,
  from_be16-be16, from_be32-be32, as_bytes, from_utf8_lossy, IsScalar, from_utf8_lossy-as_bytes,
  codes,
}
use yellow_vpn.Common.Str.{
  is_some, text_eq, split_on, strip_prefix, trim, is_alphanumeric, is_empty,
}
use yellow_vpn.Error.{
  ensure, ◌>>◌, Text, Message, format, verbatim, caused, plain, VpnError, config, privilege, tun,
  tun_unavailable, routing, tls, protocol, auth_failed, server_disconnect, io, not_implemented,
  is_permanent, Result, ok, err, ◌>>=◌, Result-cases,
}
use yellow_vpn.Fortigate.Http.{HttpResponse, cookie}

abbrev pub is_unreserved : ℕ → Bool
is_unreserved b = is_alphanumeric b || (b == b'-' || (b == b'_' || (b == b'.' || b == b'~')))

-- A digit of `{b:02X}`.
abbrev pub hex_upper : ℕ → ℕ
hex_upper d = if ltb d 10 then b'0' + d else b'A' + (d - 10)

abbrev pub encode_byte : ℕ → Text
encode_byte b =
    if is_unreserved b then b ∷ [] else b'%' ∷ (hex_upper (b / 16) ∷ (hex_upper (b % 16) ∷ []))

unfoldable pub encode_bytes : Bytes → Text
encode_bytes [] = []
encode_bytes (b ∷ bs) = encode_byte b ++ encode_bytes bs

unfoldable pub url_encode : Text → Text
unfolding encode_bytes as_bytes
url_encode s = encode_bytes (as_bytes s)

unfoldable pub build_login_body : Text → Text → Text → Text
unfolding url_encode
build_login_body username password realm =
    codes "username="
    ++ (url_encode username
        ++ (codes "&credential="
            ++ (url_encode password ++ (codes "&realm=" ++ (url_encode realm ++ codes "&ajax=1")))))

abbrev pub or_later : {A : Type 0} → Option A → Option A → Option A
or_later (some a) later = some a
or_later none later = later

unfoldable pub first_field : Text → List Text → Option Text
unfolding strip_prefix trim
first_field needle [] = none
first_field needle (part ∷ parts) =
    or_later (strip_prefix needle (trim part)) (first_field needle parts)

unfoldable pub body_field : Text → Text → Option Text
unfolding first_field split_on trim
body_field body key = first_field (key ++ (b'=' ∷ [])) (split_on (λ c. c == b',') (trim body))

pub data LoginOutcome : Type 0 where
  cookie_issued two_factor : Text → LoginOutcome
  host_check : Text → Option Text → LoginOutcome

abbrev pub text_or_empty : Option Text → Text
text_or_empty none = []
text_or_empty (some t) = t

abbrev pub refusal : Text → VpnError
refusal ret = auth_failed (
    if is_empty ret
    then plain "no SVPNCOOKIE in login response and no recognizable status field"
    else caused (plain "gateway rejected the login") (verbatim ret))

abbrev pub second_factor : Text → Text → Result LoginOutcome
second_factor body ret =
    if is_some (body_field body (codes "tokeninfo"))
      || (is_some (body_field body (codes "reqid"))
          || (is_some (body_field body (codes "polid"))
              || is_some (body_field body (codes "magic"))))
    then ok (two_factor (text_or_empty (body_field body (codes "tokeninfo"))))
    else err (refusal ret)

-- A redirection that is not empty, behind `ret=1`.
abbrev pub redirected : Text → Option Text → Option Text
redirected ret none = none
redirected ret (some redir) =
    if text_eq ret (b'1' ∷ []) && not (is_empty redir) then some redir else none

abbrev pub without_cookie : HttpResponse → Text → Text → Option Text → Result LoginOutcome
without_cookie resp body ret (some redir) =
    ok (host_check redir (cookie resp (codes "SVPNTMPCOOKIE")))
without_cookie resp body ret none = second_factor body ret

abbrev pub on_cookie : Option Text → Result LoginOutcome → Result LoginOutcome
on_cookie (some c) other = ok (cookie_issued c)
on_cookie none other = other

unfoldable pub classify_login : HttpResponse → Result LoginOutcome
unfolding cookie body_field text_eq
classify_login resp =
    let body = from_utf8_lossy resp.body in
    let ret = text_or_empty (body_field body (codes "ret")) in
    if leb 400 resp.status
    then err (auth_failed (format "server rejected credentials (HTTP {})" (resp.status ∷ [])))
    else on_cookie (cookie resp (codes "SVPNCOOKIE"))
        (without_cookie resp body ret (redirected ret (body_field body (codes "redir"))))

abbrev pub cookie_or_fail : Option Text → Result Text
cookie_or_fail (some c) = ok c
cookie_or_fail none =
    err (auth_failed (plain "host check completed but the gateway issued no SVPNCOOKIE"))

abbrev pub after_check : HttpResponse → Result Text
after_check resp =
    if leb 400 resp.status
    then err (auth_failed (format "host check failed (HTTP {})" (resp.status ∷ [])))
    else cookie_or_fail (cookie resp (codes "SVPNCOOKIE"))

-- A request: its method and path, its cookie, and its body.
pub record Request : Type 0 where
  pub method : Text
  pub path : Text
  pub cookie_value : Option Text
  pub body : Option Text

abbrev pub cookie_named : Text → Option Text → Option Text
cookie_named name none = none
cookie_named name (some t) = some (name ++ (b'=' ∷ t))

abbrev pub prime_request : Request
prime_request = record {
  method = codes "GET";
  path = codes "/remote/login?lang=en";
  cookie_value = none;
  body = none;
}

unfoldable pub login_request : Text → Text → Text → Request
unfolding build_login_body
login_request username password realm = record {
  method = codes "POST";
  path = codes "/remote/logincheck";
  cookie_value = none;
  body = some (build_login_body username password realm);
}

abbrev pub check_request : Text → Option Text → Request
check_request redir tmp_cookie = record {
  method = codes "GET";
  path = redir;
  cookie_value = cookie_named (codes "SVPNTMPCOOKIE") tmp_cookie;
  body = none;
}

-- `send` is `HttpSession::request` on the state of the session and of the network.
module _ {S : Type 0} (send : S → Request → Result HttpResponse × S) where
  abbrev pub on_outcome : LoginOutcome → S → Result Text × S
  on_outcome (cookie_issued c) s = (ok c, s)
  on_outcome (host_check redir tmp_cookie) s =
      let answer = send s (check_request redir tmp_cookie) in (answer.0 >>= after_check, answer.1)
  on_outcome (two_factor info) s = (
    err (auth_failed (caused (plain "gateway requires a second factor (OTP)") (verbatim info))),
    s,
  )

  abbrev pub on_login : Result LoginOutcome → S → Result Text × S
  on_login (err e) s = (err e, s)
  on_login (ok outcome) s = on_outcome outcome s

  -- What the first request answers does not matter.
  unfoldable pub authenticate_on : Text → Text → Text → S → Result Text × S
  unfolding login_request classify_login
  authenticate_on username password realm s =
      let login = send (send s prime_request).1 (login_request username password realm) in
      on_login (login.0 >>= classify_login) login.1
