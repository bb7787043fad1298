-- ===== src/Checkpoint/Session/Redact.antt =====
-- crates/vpn-engine/src/checkpoint/session.rs: what the log shows of a client_hello.
use yellow_vpn.Common.{
  ℕ, ◌+◌, ◌≡◌, refl, sym, ap, ◌∙◌, false, Option, none, some, [], ◌∷◌, ◌++◌, append-nil,
  append_assoc, arith, ◌==◌, length, take, All, length-append, Bytes, as_bytes, as_bytes-append,
  codes,
}
use yellow_vpn.Common.Str.{split_once, behind, strip_prefix}
use yellow_vpn.Error.{Text}
use yellow_vpn.Checkpoint.Framing.{encode_control}
use yellow_vpn.Checkpoint.Cipher.{to_hex_lower}
use yellow_vpn.Checkpoint.Session.{default_hello_opts, build_client_hello}

abbrev pub cookie_key : Text
cookie_key = codes ":cookie ("

abbrev pub hidden : Text → Text → Option (Text × Text) → Text
hidden wire before none = wire
hidden wire before (some (value, rest)) =
    before ++ (cookie_key ++ (codes "<redacted>" ++ (b')' ∷ rest)))

abbrev pub redact_from : Text → Option (Text × Text) → Text
redact_from wire none = wire
redact_from wire (some (before, rest)) = hidden wire before (split_once (b')' ∷ []) rest)

unfoldable pub redact_cookie : Text → Text
unfolding split_once
redact_cookie wire = redact_from wire (split_once cookie_key wire)

-- The line of the log for a hello that is sent: `frame_len` and `client_hello`.
unfoldable pub hello_line : Text → ℕ × Text
unfolding encode_control redact_cookie
hello_line hello = (length (encode_control hello), redact_cookie hello)

unfoldable pub hex_head : Bytes → ℕ → Text
unfolding to_hex_lower
hex_head buf max = to_hex_lower (take max buf)

-- A text without a character.
abbrev pub Lacks : ℕ → Text → Type 0
Lacks x s = All (λ c. (x == c) ≡ false) s

prepend : Text → Option (Text × Text) → Option (Text × Text)
prepend [] o = o
prepend (c ∷ cs) o = behind c (prepend cs o)

prepend-some : (s front rest : Text) → prepend s (some (front, rest)) ≡ some (s ++ front, rest)
unfolding prepend
prepend-some [] front rest = refl
prepend-some (c ∷ s) front rest = rw (prepend-some s front rest) refl

-- A text is passed over where it lacks the first character of the pattern.
split_once-Lacks :
    (x : ℕ) (pat s t : Text)
    → Lacks x s
    → split_once (x ∷ pat) (s ++ t) ≡ prepend s (split_once (x ∷ pat) t)
unfolding split_once strip_prefix prepend
split_once-Lacks x pat [] t h = refl
split_once-Lacks x pat (c ∷ s) t (h, hs) = rw (h, split_once-Lacks x pat s t hs) refl

split_once-after :
    (s t : Text) → Lacks b')' s → split_once (b')' ∷ []) (s ++ (b')' ∷ t)) ≡ some (s, t)
unfolding split_once strip_prefix
split_once-after s t h =
    split_once-Lacks b')' [] s (b')' ∷ t) h
    ∙ (prepend-some s [] t ∙ ap (λ x. some (x, t)) (append-nil s))

end_of_hello :
    (cookie : Text)
    → ((cookie ++ (b')' ∷ [])) ++ (10 ∷ [])) ++ (b')' ∷ []) ≡ cookie ++ (b')' ∷ (10 ∷ (b')' ∷ [])))
end_of_hello cookie =
    ap (λ x. x ++ (b')' ∷ [])) (append_assoc cookie (b')' ∷ []) (10 ∷ []))
    ∙ append_assoc cookie (b')' ∷ (10 ∷ [])) (b')' ∷ [])

redact_cookie-build_client_hello :
    (cookie : Text)
    → Lacks b')' cookie
    → redact_cookie (build_client_hello cookie (codes "0.0.0.0") default_hello_opts)
      ≡ build_client_hello (codes "<redacted>") (codes "0.0.0.0") default_hello_opts
unfolding redact_cookie build_client_hello split_once strip_prefix
redact_cookie-build_client_hello cookie closed =
    rw (end_of_hello cookie, split_once-after cookie (10 ∷ (b')' ∷ [])) closed) refl

length-as_bytes_append :
    (s t : Text) → length (as_bytes (s ++ t)) ≡ length (as_bytes s) + length (as_bytes t)
length-as_bytes_append s t =
    ap length (as_bytes-append s t) ∙ length-append (as_bytes s) (as_bytes t)

-- The length of a frame is 8 for the header, the bytes of the text, and 1 for the NUL.
length-encode_control : (s : Text) → length (encode_control s) ≡ length (as_bytes s) + 9
unfolding encode_control
length-encode_control s = let end = length-append (as_bytes s) (0x00 ∷ []) in omega arith

abbrev length_around : ℕ
length_around = length (as_bytes (build_client_hello [] (codes "0.0.0.0") default_hello_opts))

length-build_client_hello :
    (cookie : Text)
    → length (as_bytes (build_client_hello cookie (codes "0.0.0.0") default_hello_opts))
      ≡ length (as_bytes cookie) + length_around
unfolding build_client_hello as_bytes
length-build_client_hello cookie =
    let end = length-as_bytes_append cookie (b')' ∷ (10 ∷ (b')' ∷ []))) in
    rw (end_of_hello cookie, end) (omega arith)

frame_len :
    (cookie : Text)
    → length (encode_control (build_client_hello cookie (codes "0.0.0.0") default_hello_opts))
      ≡ length (as_bytes cookie)
        + length (encode_control (build_client_hello [] (codes "0.0.0.0") default_hello_opts))
frame_len cookie =
    let hello = build_client_hello cookie (codes "0.0.0.0") default_hello_opts in
    let empty_hello = build_client_hello [] (codes "0.0.0.0") default_hello_opts in
    let whole = length-encode_control hello in
    let around = length-encode_control empty_hello in
    let text = length-build_client_hello cookie in omega arith

-- What the log says of the hello that the client sends, for a cookie without a closing parenthesis:
-- the text is the one of the cookie `<redacted>`, and the length of the frame is the one for an
-- empty cookie and the number of the cookie's bytes. So two such cookies with as many bytes leave
-- the same line.
pub hello_line-build_client_hello :
    (cookie other : Text)
    → Lacks b')' cookie
    → Lacks b')' other
    → length (as_bytes cookie) ≡ length (as_bytes other)
    → ((hello_line (build_client_hello cookie (codes "0.0.0.0") default_hello_opts)).1
        ≡ build_client_hello (codes "<redacted>") (codes "0.0.0.0") default_hello_opts)
      × ((hello_line (build_client_hello cookie (codes "0.0.0.0") default_hello_opts)).0
          ≡ length (as_bytes cookie)
            + (hello_line (build_client_hello [] (codes "0.0.0.0") default_hello_opts)).0)
      × (hello_line (build_client_hello cookie (codes "0.0.0.0") default_hello_opts)
          ≡ hello_line (build_client_hello other (codes "0.0.0.0") default_hello_opts))
unfolding hello_line
hello_line-build_client_hello cookie other closed closed' same =
    let hello = build_client_hello cookie (codes "0.0.0.0") default_hello_opts in
    let hello' = build_client_hello other (codes "0.0.0.0") default_hello_opts in
    let text = redact_cookie-build_client_hello cookie closed in
    let text' = redact_cookie-build_client_hello other closed' in
    let size : length (as_bytes hello) ≡ length (as_bytes hello') =
      length-build_client_hello cookie
      ∙ (ap (λ n. n + length_around) same ∙ sym (length-build_client_hello other)) in
    (
      text,
      frame_len cookie,
      rw (length-encode_control hello, length-encode_control hello', size, text, text') refl,
    )
