-- ===== src/Fortigate/Login/Form.antt =====
-- crates/vpn-engine/src/fortigate/auth.rs: what stands in the form of a login.
use yellow_vpn.Common.{
  ℕ, ◌+◌, ◌*◌, ◌/◌, ◌%◌, ◌<◌, ◌≡◌, refl, sym, ap, ◌∙◌, inl, inr, Bool, true, false, not, ◌&&◌,
  Option, none, some, [], ◌∷◌, ◌++◌, append_assoc, arith, ◌==◌, if◌then◌else◌, Bool-cases, All,
  All-append, Bytes, IsByte, as_bytes, codes,
}
use yellow_vpn.Common.Str.{split_on, hex_digit}
use yellow_vpn.Error.{Text}
use yellow_vpn.Fortigate.Login.{
  is_unreserved, hex_upper, encode_byte, encode_bytes, url_encode, build_login_body,
}

-- The reader of a form: `%` stands in front of two hexadecimal digits of a byte.
abbrev pub pair_of : Option ℕ → Option ℕ → Option Bytes → Option Bytes
pair_of (some hi) (some lo) (some bs) = some ((hi * 16 + lo) ∷ bs)
pair_of _ _ _ = none

abbrev pub onto : ℕ → Option Bytes → Option Bytes
onto b none = none
onto b (some bs) = some (b ∷ bs)

unfoldable pub percent_decode : Text → Option Bytes
unfolding hex_digit
percent_decode [] = some []
percent_decode (c ∷ []) = if c == b'%' then none else some (c ∷ [])
percent_decode (c ∷ (d ∷ [])) = if c == b'%' then none else onto c (percent_decode (d ∷ []))
percent_decode (c ∷ (d ∷ (e ∷ s))) =
    let plain_ = percent_decode (d ∷ (e ∷ s)) in
    let escaped = percent_decode s in
    if c == b'%' then pair_of (hex_digit d) (hex_digit e) escaped else onto c plain_

hex_digit-hex_upper : (d : ℕ) → d < 16 → hex_digit (hex_upper d) ≡ some d
unfolding hex_digit
hex_digit-hex_upper d h = ground arith

percent_decode-plain :
    (c : ℕ) (s : Text) → (c == b'%') ≡ false → percent_decode (c ∷ s) ≡ onto c (percent_decode s)
unfolding percent_decode
percent_decode-plain c [] h = rw h refl
percent_decode-plain c (d ∷ []) h = rw h refl
percent_decode-plain c (d ∷ (e ∷ s)) h = rw h refl

unreserved-plain : (b : ℕ) → is_unreserved b ≡ true → (b == b'%') ≡ false
unreserved-plain b h = ground arith

percent_decode-escaped :
    (b : ℕ) (s : Text)
    → IsByte b
    → percent_decode (b'%' ∷ (hex_upper (b / 16) ∷ (hex_upper (b % 16) ∷ s)))
      ≡ onto b (percent_decode s)
unfolding percent_decode
percent_decode-escaped b s h =
    rw (hex_digit-hex_upper (b / 16) (omega arith), hex_digit-hex_upper (b % 16) (omega arith))
      (again (percent_decode s))
  where
    again : (o : Option Bytes) → pair_of (some (b / 16)) (some (b % 16)) o ≡ onto b o
    again none = refl
    again (some bs) = ap (λ n. some (n ∷ bs)) (omega arith)

percent_decode-encode_bytes :
    (bs : Bytes) → All IsByte bs → percent_decode (encode_bytes bs) ≡ some bs
unfolding encode_bytes
percent_decode-encode_bytes [] h = unfold percent_decode in refl
percent_decode-encode_bytes (b ∷ bs) h = elim (Bool-cases (is_unreserved b)) [
  | inl free ↦
      rw
        (
          free,
          percent_decode-plain b (encode_bytes bs) (unreserved-plain b free),
          percent_decode-encode_bytes bs h.1,
        )
        refl
  | inr other ↦
      rw (other, percent_decode-escaped b (encode_bytes bs) h.0, percent_decode-encode_bytes bs h.1)
        refl
]

-- A credential is read back from the form as it was given: the bytes of the text.
pub percent_decode-url_encode :
    (s : Text) → All IsByte (as_bytes s) → percent_decode (url_encode s) ≡ some (as_bytes s)
unfolding url_encode
percent_decode-url_encode s h = percent_decode-encode_bytes (as_bytes s) h

-- No separator of a form stands in the text.
abbrev IsValue : Text → Type 0
IsValue s = All (λ c. (c == b'&') ≡ false) s

split_on-value :
    (s rest : Text)
    → IsValue s
    → split_on (λ c. c == b'&') (s ++ (b'&' ∷ rest)) ≡ s ∷ split_on (λ c. c == b'&') rest
unfolding split_on
split_on-value [] rest h = refl
split_on-value (c ∷ s) rest h = rw (h.0, split_on-value s rest h.1) refl

encode_byte-IsValue : (b : ℕ) → IsByte b → IsValue (encode_byte b)
encode_byte-IsValue b h = elim (Bool-cases (is_unreserved b)) [
  | inl free ↦ rw free (plain_ b free, tt)
  | inr other ↦ rw other (refl, (digit (b / 16) (omega arith), (digit (b % 16) (omega arith), tt)))
]
  where
    plain_ : (b : ℕ) → is_unreserved b ≡ true → (b == b'&') ≡ false
    plain_ b h = ground arith

    digit : (d : ℕ) → d < 16 → (hex_upper d == b'&') ≡ false
    digit d h = ground arith

encode_bytes-IsValue : (bs : Bytes) → All IsByte bs → IsValue (encode_bytes bs)
unfolding encode_bytes
encode_bytes-IsValue [] h = tt
encode_bytes-IsValue (b ∷ bs) h =
    All-append (λ c. (c == b'&') ≡ false) (encode_byte b) (encode_bytes bs)
      (encode_byte-IsValue b h.0) (encode_bytes-IsValue bs h.1)

no_separator : Text → Bool
no_separator [] = true
no_separator (c ∷ cs) = not (c == b'&') && no_separator cs

no_separator-IsValue : (s : Text) → no_separator s ≡ true → IsValue s
unfolding no_separator
no_separator-IsValue [] h = tt
no_separator-IsValue (c ∷ cs) h = (ground arith, no_separator-IsValue cs (ground arith))

value_field :
    (key : Text) (s rest : Text)
    → IsValue key
    → All IsByte (as_bytes s)
    → split_on (λ c. c == b'&') (key ++ (url_encode s ++ (b'&' ∷ rest)))
      ≡ (key ++ url_encode s) ∷ split_on (λ c. c == b'&') rest
unfolding url_encode
value_field key s rest k h = rw (sym (append_assoc key (encode_bytes (as_bytes s)) (b'&' ∷ rest))) (
    split_on-value (key ++ encode_bytes (as_bytes s)) rest (
      All-append (λ c. (c == b'&') ≡ false) key (encode_bytes (as_bytes s)) k
        (encode_bytes-IsValue (as_bytes s) h)))

-- Whatever the credentials are, the form has these four fields and no other.
pub split_on-build_login_body :
    (username password realm : Text)
    → All IsByte (as_bytes username)
    → All IsByte (as_bytes password)
    → All IsByte (as_bytes realm)
    → split_on (λ c. c == b'&') (build_login_body username password realm)
      ≡ (codes "username=" ++ url_encode username)
        ∷ (codes "credential=" ++ url_encode password)
        ∷ (codes "realm=" ++ url_encode realm)
        ∷ codes "ajax=1"
        ∷ []
unfolding build_login_body split_on no_separator
split_on-build_login_body username password realm u p r =
    value_field (codes "username=") username _ (no_separator-IsValue (codes "username=") refl) u
    ∙ ap (◌∷◌ (codes "username=" ++ url_encode username)) (
        value_field (codes "credential=") password _
          (no_separator-IsValue (codes "credential=") refl) p
        ∙ ap (◌∷◌ (codes "credential=" ++ url_encode password)) (
            value_field (codes "realm=") realm (codes "ajax=1")
              (no_separator-IsValue (codes "realm=") refl) r))
