-- ===== src/Fortigate/Login/Cookie.antt =====
-- crates/vpn-engine/src/fortigate/auth.rs: the cookie that a login gives.
use mathlib.Core.Path.{subst}
use yellow_vpn.Common.{
  ◌≡◌, refl, inl, inr, Bool, true, ◌||◌, Option, none, some, leb, Bool-cases, from_utf8_lossy,
  codes,
}
use yellow_vpn.Common.Str.{is_some}
use yellow_vpn.Error.{Text, is_permanent, Result, ok, err, ◌>>=◌}
use yellow_vpn.Fortigate.Http.{HttpResponse, HeaderList, cookie}
use yellow_vpn.Fortigate.Http.SetCookie.{Sets, IsCredential, Found, cookie-Found}
use yellow_vpn.Fortigate.Login.{
  LoginOutcome, cookie_issued, two_factor, host_check, second_factor, redirected, without_cookie,
  on_cookie, classify_login, cookie_or_fail, after_check, Request, on_login, authenticate_on,
  body_field, text_or_empty, prime_request, login_request, check_request,
}

-- What the reply to the credentials comes to: a usable cookie, another round, or a refusal for good.
abbrev pub Settled : HeaderList → Result LoginOutcome → Type 0
Settled hs (ok (cookie_issued c)) = IsCredential c × Sets (codes "SVPNCOOKIE") hs c
Settled hs (ok _) = Unit
Settled hs (err e) = is_permanent e ≡ true

second_factor-Settled : (hs : HeaderList) (body ret : Text) → Settled hs (second_factor body ret)
unfolding is_permanent
second_factor-Settled hs body ret = elim (Bool-cases (asks body)) [
  | inl asked ↦ rw asked tt
  | inr refused ↦ rw refused refl
]
  where
    asks : Text → Bool
    asks body =
        is_some (body_field body (codes "tokeninfo"))
        || (is_some (body_field body (codes "reqid"))
            || (is_some (body_field body (codes "polid"))
                || is_some (body_field body (codes "magic"))))

without_cookie-Settled :
    (resp : HttpResponse) (body ret : Text) (redir : Option Text)
    → Settled resp.headers (without_cookie resp body ret redir)
without_cookie-Settled resp body ret none = second_factor-Settled resp.headers body ret
without_cookie-Settled resp body ret (some redir) = tt

on_cookie-Settled :
    (hs : HeaderList) (c : Option Text) (other : Result LoginOutcome)
    → Found (Sets (codes "SVPNCOOKIE") hs) c
    → Settled hs other
    → Settled hs (on_cookie c other)
on_cookie-Settled hs none other f s = s
on_cookie-Settled hs (some c) other f s = f

-- Whatever the gateway answers to the credentials, the login is refused with a permanent error, or
-- it asks for another round, or it gives a cookie that one of its headers sets, neither empty
-- nor `0`.
pub classify_login-Settled : (resp : HttpResponse) → Settled resp.headers (classify_login resp)
unfolding classify_login is_permanent
classify_login-Settled resp = elim (Bool-cases (leb 400 resp.status)) [
  | inl refused ↦ rw refused refl
  | inr fine ↦ rw fine (
      on_cookie-Settled resp.headers (cookie resp (codes "SVPNCOOKIE"))
        (without_cookie resp (text resp) (ret resp) (redir resp))
        (cookie-Found resp (codes "SVPNCOOKIE"))
        (without_cookie-Settled resp (text resp) (ret resp) (redir resp)))
]
  where
    text : HttpResponse → Text
    text resp = from_utf8_lossy resp.body

    ret : HttpResponse → Text
    ret resp = text_or_empty (body_field (text resp) (codes "ret"))

    redir : HttpResponse → Option Text
    redir resp = redirected (ret resp) (body_field (text resp) (codes "redir"))

-- An answer to a request sets the cookie to this value, which is neither empty nor `0`.
abbrev pub IsIssued : {S : Type 0} → (S → Request → Result HttpResponse × S) → Text → Type 0
IsIssued {S} send c =
    IsCredential c
    × ((s : S) × (r : Request) × (resp : HttpResponse) × ((send s r).0 ≡ ok resp)
        × Sets (codes "SVPNCOOKIE") resp.headers c)

module _ {S : Type 0} (send : S → Request → Result HttpResponse × S) where
  abbrev Usable : Result Text → Type 0
  Usable (ok c) = IsIssued send c
  Usable (err e) = Unit

  -- A cookie that is issued at once.
  abbrev Issued : Result LoginOutcome → Type 0
  Issued (ok (cookie_issued c)) = IsIssued send c
  Issued _ = Unit

  cookie_or_fail-Usable :
      (s : S) (r : Request) (resp : HttpResponse) (c : Option Text)
      → (send s r).0 ≡ ok resp
      → Found (Sets (codes "SVPNCOOKIE") resp.headers) c
      → Usable (cookie_or_fail c)
  cookie_or_fail-Usable s r resp none h f = tt
  cookie_or_fail-Usable s r resp (some c) h (good, set) = (good, (s, r, resp, h, set))

  after_check-Usable :
      (s : S) (r : Request) (resp : HttpResponse)
      → (send s r).0 ≡ ok resp
      → Usable (after_check resp)
  after_check-Usable s r resp h = elim (Bool-cases (leb 400 resp.status)) [
    | inl refused ↦ rw refused tt
    | inr fine ↦ rw fine (
        cookie_or_fail-Usable s r resp (cookie resp (codes "SVPNCOOKIE")) h
          (cookie-Found resp (codes "SVPNCOOKIE")))
  ]

  bind-Usable :
      (s : S) (r : Request) (a : Result HttpResponse)
      → (send s r).0 ≡ a
      → Usable (a >>= after_check)
  bind-Usable s r (err e) h = tt
  bind-Usable s r (ok resp) h = after_check-Usable s r resp h

  Settled-Issued :
      (s : S) (r : Request) (resp : HttpResponse) (o : Result LoginOutcome)
      → (send s r).0 ≡ ok resp
      → Settled resp.headers o
      → Issued o
  Settled-Issued s r resp (ok (cookie_issued c)) h (good, set) = (good, (s, r, resp, h, set))
  Settled-Issued s r resp (ok (two_factor info)) h k = tt
  Settled-Issued s r resp (ok (host_check redir tmp)) h k = tt
  Settled-Issued s r resp (err e) h k = tt

  bind-Issued :
      (s : S) (r : Request) (a : Result HttpResponse)
      → (send s r).0 ≡ a
      → Issued (a >>= classify_login)
  bind-Issued s r (err e) h = tt
  bind-Issued s r (ok resp) h =
      Settled-Issued s r resp (classify_login resp) h (classify_login-Settled resp)

  on_login-Usable : (r : Result LoginOutcome) (s : S) → Issued r → Usable (on_login send r s).0
  on_login-Usable (err e) s h = tt
  on_login-Usable (ok (cookie_issued c)) s h = h
  on_login-Usable (ok (two_factor info)) s h = tt
  on_login-Usable (ok (host_check redir tmp)) s h =
      bind-Usable s (check_request redir tmp) (send s (check_request redir tmp)).0 refl

  authenticate_on-Usable :
      (username password realm : Text) (s : S)
      → Usable (authenticate_on send username password realm s).0
  unfolding authenticate_on
  authenticate_on-Usable username password realm s =
      let primed = (send s prime_request).1 in
      let request = login_request username password realm in
      on_login-Usable ((send primed request).0 >>= classify_login) (send primed request).1
        (bind-Issued primed request (send primed request).0 refl)

  -- Whatever the gateway answers in the rounds of a login, the cookie that it ends in is one that
  -- the gateway's answer to a request gives to SVPNCOOKIE in a `Set-Cookie` header, and it is
  -- neither empty nor `0`, the two values with which a gateway clears it.
  pub authenticate_on-IsIssued :
      (username password realm : Text) (s : S) {c : Text}
      → (authenticate_on send username password realm s).0 ≡ ok c
      → IsIssued send c
  authenticate_on-IsIssued username password realm s h =
      subst Usable h (authenticate_on-Usable username password realm s)
