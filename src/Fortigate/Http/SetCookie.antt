-- ===== src/Fortigate/Http/SetCookie.antt =====
-- crates/vpn-engine/src/fortigate/http.rs: the value that `cookie` finds, against the headers.
use yellow_vpn.Common.{
  ℕ, ◌≡◌, refl, ap, ◌⊎◌, inl, inr, true, false, ◌||◌, Option, none, some, [], ◌∷◌, ◌++◌, arith,
  ◌==◌, Bool-cases, codes,
}
use yellow_vpn.Common.Str.{
  strip_prefix, behind, first_match, split_once, span_until, trim, text_eq, is_empty,
}
use yellow_vpn.Error.{Text}
use yellow_vpn.Fortigate.Http.{
  HttpResponse, HeaderList, in_name, usable, cookie_in, last_cookie, cookie,
}

abbrev Stripped : (pat s : Text) → Option Text → Type 0
Stripped pat s none = Unit
Stripped pat s (some rest) = s ≡ pat ++ rest

strip_prefix-Stripped : (pat s : Text) → Stripped pat s (strip_prefix pat s)
unfolding strip_prefix
strip_prefix-Stripped [] s = refl
strip_prefix-Stripped (x ∷ xs) [] = tt
strip_prefix-Stripped (x ∷ xs) (y ∷ ys) = elim (Bool-cases (x == y)) [
  | inl same ↦
      let equal : x ≡ y = ground arith in
      rw same (longer x y equal xs ys (strip_prefix xs ys) (strip_prefix-Stripped xs ys))
  | inr other ↦ rw other tt
]
  where
    longer :
        (x y : ℕ)
        → x ≡ y
        → (xs ys : Text) (o : Option Text) → Stripped xs ys o
        → Stripped (x ∷ xs) (y ∷ ys) o
    longer x y equal xs ys none h = tt
    longer x y equal xs ys (some rest) h = rw (equal, h) refl

-- The text is the front, the pattern and the rest.
abbrev Parts : (pat s : Text) → Option (Text × Text) → Type 0
Parts pat s none = Unit
Parts pat s (some (front, rest)) = s ≡ front ++ (pat ++ rest)

first_match-Parts :
    (pat s : Text) (o : Option Text) (later : Option (Text × Text))
    → Stripped pat s o
    → Parts pat s later
    → Parts pat s (first_match o later)
first_match-Parts pat s none later h h' = h'
first_match-Parts pat s (some rest) later h h' = h

behind-Parts :
    (c : ℕ) (pat s : Text) (o : Option (Text × Text))
    → Parts pat s o
    → Parts pat (c ∷ s) (behind c o)
behind-Parts c pat s none h = tt
behind-Parts c pat s (some (front, rest)) h = ap (◌∷◌ c) h

split_once-Parts : (pat s : Text) → Parts pat s (split_once pat s)
unfolding split_once
split_once-Parts pat [] =
    first_match-Parts pat [] (strip_prefix pat []) none (strip_prefix-Stripped pat []) tt
split_once-Parts pat (c ∷ cs) =
    first_match-Parts pat (c ∷ cs) (strip_prefix pat (c ∷ cs)) (behind c (split_once pat cs))
      (strip_prefix-Stripped pat (c ∷ cs))
      (behind-Parts c pat cs (split_once pat cs) (split_once-Parts pat cs))

-- The value of a header gives the cookie this value: behind the name, which is no part of a longer
-- name, and `=`, up to a semicolon or a comma, without the white space around it.
abbrev pub Gives : (name v c : Text) → Type 0
Gives name v c =
    (front rest : Text) × (v ≡ front ++ ((name ++ (b'=' ∷ [])) ++ rest))
    × (in_name front ≡ false)
    × (trim (span_until (λ x. x == b';' || x == b',') rest).0 ≡ c)

-- One of the headers is a `Set-Cookie` that gives the cookie this value.
abbrev pub Sets : Text → HeaderList → Text → Type 0
Sets name [] c = ⊥
Sets name ((k, v) ∷ hs) c =
    ((text_eq k (codes "set-cookie") ≡ true) × Gives name v c) ⊎ Sets name hs c

-- Neither empty nor `0`, the two values with which a gateway clears a cookie.
abbrev pub IsCredential : Text → Type 0
IsCredential c = (is_empty c || text_eq c (b'0' ∷ [])) ≡ false

abbrev pub Found : (Text → Type 0) → Option Text → Type 0
Found P none = Unit
Found P (some c) = IsCredential c × P c

usable-Found :
    (P : Text → Type 0) (value : Text) (found : Option Text)
    → P value
    → Found P found
    → Found P (usable value found)
usable-Found P value found p f = elim (Bool-cases (is_empty value || text_eq value (b'0' ∷ []))) [
  | inl deleted ↦ rw deleted f
  | inr good ↦ rw good (good, p)
]

cookie_in-Found :
    (P : Text → Type 0) (name v : Text) (place : Option (Text × Text)) (found : Option Text)
    → Parts (name ++ (b'=' ∷ [])) v place
    → ((c : Text) → Gives name v c → P c)
    → Found P found
    → Found P (cookie_in place found)
cookie_in-Found P name v none found parts gives f = f
cookie_in-Found P name v (some (front, rest)) found parts gives f =
    elim (Bool-cases (in_name front)) [
      | inl inside ↦ rw inside f
      | inr apart ↦ rw apart (
          usable-Found P (trim (span_until (λ x. x == b';' || x == b',') rest).0) found
            (gives _ (front, rest, parts, apart, refl)) f)
    ]

last_cookie-Found :
    (P : Text → Type 0) (name : Text) (hs : HeaderList) (found : Option Text)
    → ((c : Text) → Sets name hs c → P c)
    → Found P found
    → Found P (last_cookie name hs found)
unfolding last_cookie
last_cookie-Found P name [] found sets f = f
last_cookie-Found P name ((k, v) ∷ hs) found sets f =
    elim (Bool-cases (text_eq k (codes "set-cookie"))) [
      | inl here ↦ rw here (
          last_cookie-Found P name hs (cookie_in (split_once (name ++ (b'=' ∷ [])) v) found)
            (λ c s. sets c (inr s))
            (cookie_in-Found P name v (split_once (name ++ (b'=' ∷ [])) v) found
              (split_once-Parts (name ++ (b'=' ∷ [])) v) (λ c g. sets c (inl (here, g))) f))
      | inr other ↦ rw other (last_cookie-Found P name hs found (λ c s. sets c (inr s)) f)
    ]

-- The cookie that is found is set by one of the headers, to a value that is neither empty nor `0`.
pub cookie-Found :
    (resp : HttpResponse) (name : Text) → Found (Sets name resp.headers) (cookie resp name)
unfolding cookie
cookie-Found resp name =
    last_cookie-Found (Sets name resp.headers) name resp.headers none (λ c s. s) tt
