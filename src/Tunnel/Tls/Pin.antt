-- ===== src/Tunnel/Tls/Pin.antt =====
-- crates/vpn-engine/src/tunnel.rs: what a pin accepts, and the fingerprint in an error message.
use mathlib.Core.Path.{subst}
use yellow_vpn.Common.{
  ℕ, zero, suc, ◌+◌, ◌*◌, ◌/◌, ◌%◌, ◌<◌, ◌≡◌, refl, sym, ap, ◌∙◌, ◌≢◌, ◌↔◌, inl, inr, true, false,
  ◌||◌, Option, none, some, [], ◌∷◌, arith, ◌==◌, ==_self, Bool-cases, length, All, Bytes, IsByte,
  codes,
}
use yellow_vpn.Common.Str.{
  text_eq, trim, trim_by, trim_start_by, trim_end_by, keep_if_last, is_whitespace, strip_prefix,
  hex_char,
}
use yellow_vpn.Common.Decimal.{hex_digit-hex_char}
use yellow_vpn.Error.{Text, verbatim, caused, VpnError, tls, Result, ok, err}
use yellow_vpn.Client.{CertTrust, pinned}
use yellow_vpn.Config.{
  trim_start_matches, cleaned, cleaned_pin, all_hex, pin_bytes, parse_sha256_fingerprint,
}
use yellow_vpn.Config.Fingerprint.{pair-some, as_bytes-hex}
use yellow_vpn.Tunnel.Tls.{
  hex_encode, build_tls_config, Crypto, mismatch, verify_server_cert, verify_tls_signature,
}

text_eq-eq : (s t : Text) → text_eq s t ≡ true → s ≡ t
unfolding text_eq
text_eq-eq [] [] h = refl
text_eq-eq [] (y ∷ t) h = absurd (ground arith)
text_eq-eq (x ∷ s) [] h = absurd (ground arith)
text_eq-eq (x ∷ s) (y ∷ t) h =
    let same : x ≡ y = ground arith in rw (same, text_eq-eq s t (ground arith)) refl

text_eq_self : (s : Text) → text_eq s s ≡ true
unfolding text_eq
text_eq_self [] = refl
text_eq_self (x ∷ s) = rw (==_self x) (text_eq_self s)

-- The handshake's two checks of a server that shows the certificate and signs the message.
abbrev pub Accepts : Crypto → CertTrust → (cert message signature : Bytes) → Type 0
Accepts k trust cert message signature =
    (verify_server_cert k (build_tls_config trust).verifier cert ≡ ok tt)
    × (verify_tls_signature k (build_tls_config trust).verifier message cert signature ≡ ok tt)

err-≢_ok : {A : Type 0} (e : VpnError) (a : A) → err e ≢ ok a
err-≢_ok e a h = ground arith

refused_ok :
    (k : Crypto) (pin cert : Bytes)
    → text_eq (k.sha256 cert) pin ≡ false
    → verify_server_cert k (build_tls_config (pinned pin)).verifier cert ≢ ok tt
unfolding verify_server_cert build_tls_config
refused_ok k pin cert other h = err-≢_ok (mismatch pin (k.sha256 cert)) tt (sym (rw other refl) ∙ h)

pinned_cert :
    (k : Crypto) (pin cert : Bytes)
    → (verify_server_cert k (build_tls_config (pinned pin)).verifier cert ≡ ok tt)
      ↔ (k.sha256 cert ≡ pin)
unfolding verify_server_cert build_tls_config
pinned_cert k pin cert = (
  λ h. elim (Bool-cases (text_eq (k.sha256 cert) pin)) [
    | inl same ↦ text_eq-eq (k.sha256 cert) pin same
    | inr other ↦ absurd (refused_ok k pin cert other h)
  ],
  λ e. rw (e, text_eq_self pin) refl,
)

-- With a pin, a server is accepted exactly where the digest of its certificate is the pin and the
-- provider accepts the signature of the handshake: names and issuers do not matter.
pub Accepts-pinned :
    (k : Crypto) (pin cert message signature : Bytes)
    → Accepts k (pinned pin) cert message signature
      ↔ ((k.sha256 cert ≡ pin) × (k.verify_signature message cert signature ≡ ok tt))
unfolding verify_tls_signature build_tls_config
Accepts-pinned k pin cert message signature = (
  λ (cert_ok, signed). ((pinned_cert k pin cert).0 cert_ok, signed),
  λ (same, signed). ((pinned_cert k pin cert).1 same, signed),
)

-- A digit that `hex_encode` writes.
abbrev IsHexChar : ℕ → Type 0
IsHexChar c = (d : ℕ) × (d < 16) × (c ≡ hex_char d)

hex_encode-IsHexChar : (bs : Bytes) → All IsByte bs → All IsHexChar (hex_encode bs)
unfolding hex_encode
hex_encode-IsHexChar [] h = tt
hex_encode-IsHexChar (b ∷ bs) (h, hs) =
    ((b / 16, omega arith, refl), ((b % 16, omega arith, refl), hex_encode-IsHexChar bs hs))

hex_char-kept : (d : ℕ) → d < 16 → (hex_char d == b':' || is_whitespace (hex_char d)) ≡ false
unfolding is_whitespace
hex_char-kept d h = ground arith

IsHexChar-kept : (c : ℕ) → IsHexChar c → (c == b':' || is_whitespace c) ≡ false
IsHexChar-kept c (d, h, e) =
    subst (λ x. (x == b':' || is_whitespace x) ≡ false) (sym e) (hex_char-kept d h)

hex_char-prefix : (d : ℕ) → d < 16 → ((b's' == hex_char d) ≡ false) × ((b'S' == hex_char d) ≡ false)
hex_char-prefix d h = (ground arith, ground arith)

-- Neither white space nor a colon.
abbrev IsKept : ℕ → Type 0
IsKept c = (c == b':' || is_whitespace c) ≡ false

All-IsKept : (s : Text) → All IsHexChar s → All IsKept s
All-IsKept [] h = tt
All-IsKept (c ∷ s) (h, hs) = (IsHexChar-kept c h, All-IsKept s hs)

cleaned-kept : (s : Text) → All IsKept s → cleaned s ≡ s
unfolding cleaned
cleaned-kept [] h = refl
cleaned-kept (c ∷ s) (h, hs) = rw h (ap (◌∷◌ c) (cleaned-kept s hs))

kept-whitespace : (c : ℕ) → IsKept c → is_whitespace c ≡ false
kept-whitespace c h = ground arith

keep_if_last-false : (c : ℕ) (s : Text) → keep_if_last false c s ≡ c ∷ s
keep_if_last-false c [] = refl
keep_if_last-false c (d ∷ s) = refl

trim_end_by-kept : (s : Text) → All IsKept s → trim_end_by is_whitespace s ≡ s
unfolding trim_end_by
trim_end_by-kept [] h = refl
trim_end_by-kept (c ∷ s) (h, hs) =
    rw (kept-whitespace c h, trim_end_by-kept s hs) (keep_if_last-false c s)

trim_start_by-kept : (s : Text) → All IsKept s → trim_start_by is_whitespace s ≡ s
unfolding trim_start_by
trim_start_by-kept [] h = refl
trim_start_by-kept (c ∷ s) (h, hs) = rw (kept-whitespace c h) refl

trim-kept : (s : Text) → All IsKept s → trim s ≡ s
unfolding trim trim_by
trim-kept s h = ap (trim_end_by is_whitespace) (trim_start_by-kept s h) ∙ trim_end_by-kept s h

trim_start_matches-none :
    (n : ℕ) (pat s : Text) → strip_prefix pat s ≡ none → trim_start_matches n pat s ≡ s
unfolding trim_start_matches
trim_start_matches-none zero pat s h = refl
trim_start_matches-none (suc n) pat s h = rw h (trim_start_matches-none n pat s h)

strip_prefix-hex :
    (s : Text)
    → All IsHexChar s
    → (strip_prefix (codes "sha256:") s ≡ none) × (strip_prefix (codes "SHA256:") s ≡ none)
unfolding strip_prefix
strip_prefix-hex [] h = (refl, refl)
strip_prefix-hex (c ∷ s) ((d, small, e), hs) =
    let (lower, upper) = hex_char-prefix d small in (rw (e, lower) refl, rw (e, upper) refl)

cleaned_pin-hex : (s : Text) → All IsHexChar s → cleaned_pin s ≡ s
unfolding cleaned_pin
cleaned_pin-hex s h =
    let kept = All-IsKept s h in
    let (lower, upper) = strip_prefix-hex s h in
    rw
      (
        trim-kept s kept,
        trim_start_matches-none (length s) (codes "sha256:") s lower,
        trim_start_matches-none (length s) (codes "SHA256:") s upper,
      )
      (cleaned-kept s kept)

all_hex-hex : (s : Text) → All IsHexChar s → all_hex s ≡ true
unfolding all_hex
all_hex-hex [] h = refl
all_hex-hex (c ∷ s) ((d, small, e), hs) = rw (e, hex_digit-hex_char d small) (all_hex-hex s hs)

length-hex_encode : (bs : Bytes) → length (hex_encode bs) ≡ 2 * length bs
unfolding hex_encode
length-hex_encode [] = refl
length-hex_encode (b ∷ bs) = let rest = length-hex_encode bs in omega arith

pin_bytes-hex_encode : (bs : Bytes) → All IsByte bs → pin_bytes (length bs) (hex_encode bs) ≡ ok bs
unfolding pin_bytes hex_encode
pin_bytes-hex_encode [] h = refl
pin_bytes-hex_encode (b ∷ bs) (h, hs) =
    let high = hex_digit-hex_char (b / 16) (omega arith) in
    let low = hex_digit-hex_char (b % 16) (omega arith) in
    let whole : b / 16 * 16 + b % 16 ≡ b = omega arith in
    rw
      (
        pair-some (hex_char (b / 16)) (hex_char (b % 16)) (b / 16) (b % 16) high low,
        whole,
        pin_bytes-hex_encode bs hs,
      )
      refl

parse_sha256_fingerprint-hex_encode :
    (bs : Bytes) → All IsByte bs → length bs ≡ 32 → parse_sha256_fingerprint (hex_encode bs) ≡ ok bs
unfolding parse_sha256_fingerprint
parse_sha256_fingerprint-hex_encode bs small size =
    let hex = hex_encode-IsHexChar bs small in
    let count : length (hex_encode bs) ≡ 64 = length-hex_encode bs ∙ ap (λ n. 2 * n) size in
    rw
      (
        cleaned_pin-hex (hex_encode bs) hex,
        as_bytes-hex (hex_encode bs) (all_hex-hex (hex_encode bs) hex),
        all_hex-hex (hex_encode bs) hex,
        count,
      )
      (subst (λ n. pin_bytes n (hex_encode bs) ≡ ok bs) size (pin_bytes-hex_encode bs small))

-- The second fingerprint of the error, the one that the server showed.
abbrev pub shown : VpnError → Option Text
shown (tls (caused what (caused (verbatim wanted) (caused presented (verbatim got))))) = some got
shown _ = none

-- The text of an error shows the fingerprint of a pin that accepts the certificate.
abbrev pub IsShown : Crypto → (cert : Bytes) → Option Text → Type 0
IsShown k cert none = ⊥
IsShown k cert (some s) =
    (pin : Bytes) × (parse_sha256_fingerprint s ≡ ok pin)
    × (verify_server_cert k (build_tls_config (pinned pin)).verifier cert ≡ ok tt)

mismatch-IsShown :
    (k : Crypto) (pin cert : Bytes)
    → All IsByte (k.sha256 cert)
    → length (k.sha256 cert) ≡ 32
    → IsShown k cert (shown (mismatch pin (k.sha256 cert)))
mismatch-IsShown k pin cert small size = (
  k.sha256 cert,
  parse_sha256_fingerprint-hex_encode (k.sha256 cert) small size,
  (pinned_cert k (k.sha256 cert) cert).1 refl,
)

err-inj : {A : Type 0} {e e' : VpnError} → ◌≡◌ {A = Result A} (err e) (err e') → e ≡ e'
err-inj h = ground arith

accepted_err :
    (k : Crypto) (pin cert : Bytes) (e : VpnError)
    → text_eq (k.sha256 cert) pin ≡ true
    → verify_server_cert k (build_tls_config (pinned pin)).verifier cert ≢ err e
unfolding verify_server_cert build_tls_config
accepted_err k pin cert e same h = err-≢_ok e tt (sym h ∙ rw same refl)

refused_error :
    (k : Crypto) (pin cert : Bytes) {e : VpnError}
    → text_eq (k.sha256 cert) pin ≡ false
    → verify_server_cert k (build_tls_config (pinned pin)).verifier cert ≡ err e
    → mismatch pin (k.sha256 cert) ≡ e
unfolding verify_server_cert build_tls_config
refused_error k pin cert other h = err-inj {A = Unit {0}} (sym (rw other refl) ∙ h)

-- Where a pin refuses a certificate, the error shows a fingerprint that the parser of pins reads,
-- and the pin read from it accepts this certificate. The digest is only assumed to have 32 bytes.
pub verify_server_cert-shown :
    (k : Crypto) (pin cert : Bytes) {e : VpnError}
    → All IsByte (k.sha256 cert)
    → length (k.sha256 cert) ≡ 32
    → verify_server_cert k (build_tls_config (pinned pin)).verifier cert ≡ err e
    → IsShown k cert (shown e)
verify_server_cert-shown k pin cert {e} small size h =
    elim (Bool-cases (text_eq (k.sha256 cert) pin)) [
      | inl same ↦ absurd (accepted_err k pin cert e same h)
      | inr other ↦
          subst (λ x. IsShown k cert (shown x)) (refused_error k pin cert other h)
            (mismatch-IsShown k pin cert small size)
    ]
