-- ===== src/Error.antt =====
-- crates/vpn-engine/src/error.rs: the error type, its classification, and the results that carry
-- it. A message is a format string with its numeric arguments, a text received from
-- the peer, or a message that ends in the error that caused it.
use yellow_vpn.Common.{ℕ, String, ◌≡◌, refl, ◌⊎◌, inl, inr, Bool, true, false, List, []}

-- A Rust `String` as its code points.
abbrev pub Text : Type 0
Text = List ℕ

pub data Message : Type 0 where
  format : String → List ℕ → Message
  verbatim : Text → Message
  caused : Message → Message → Message

abbrev pub plain : String → Message
plain s = format s []

pub data VpnError : Type 0 where
  config privilege tun tun_unavailable routing tls protocol : Message → VpnError
  auth_failed server_disconnect io not_implemented : Message → VpnError

unfoldable pub is_permanent : VpnError → Bool
is_permanent (config _) = true
is_permanent (privilege _) = true
is_permanent (auth_failed _) = true
is_permanent (tun_unavailable _) = true
is_permanent _ = false

-- `Display`: the message behind the kind of the error.
abbrev pub to_string : VpnError → Message
to_string (config m) = caused (plain "configuration error:") m
to_string (privilege m) = caused (plain "privilege error:") m
to_string (tun m) = caused (plain "TUN error:") m
to_string (tun_unavailable m) = caused (plain "TUN unavailable:") m
to_string (routing m) = caused (plain "routing error:") m
to_string (tls m) = caused (plain "TLS error:") m
to_string (protocol m) = caused (plain "protocol error:") m
to_string (auth_failed m) = caused (plain "authentication failed:") m
to_string (server_disconnect m) = caused (plain "server disconnected:") m
to_string (io m) = caused (plain "I/O error:") m
to_string (not_implemented m) = caused (plain "not implemented:") m

infixl 5 ◌>>=◌
pub data Result {ℓ} (A : Type ℓ) : Type ℓ where
  ok : A → Result A
  err : VpnError → Result A

pub Result-cases {ℓ} :
    {A : Type ℓ} (r : Result A) → ((a : A) × (r ≡ ok a)) ⊎ ((e : VpnError) × (r ≡ err e))
Result-cases (ok a) = inl (a, refl)
Result-cases (err e) = inr (e, refl)

-- The `?` operator hands an error on.
abbrev pub ◌>>=◌ {ℓ₁ ℓ₂} :
    {T : Type ℓ₁} {U : Type ℓ₂} (m : Result T) (next : T → Result U) → Result U
err failure >>= next = err failure
ok value >>= next = next value

-- An early return of an error, unless the test holds.
abbrev pub ensure : (test : Bool) (failure : VpnError) → Result (Unit {0})
ensure false failure = err failure
ensure true failure = ok tt

infixl 5 ◌>>◌
-- One check behind another.
abbrev pub ◌>>◌ {ℓ} : {U : Type ℓ} (check : Result (Unit {0})) (next : Result U) → Result U
err failure >> next = err failure
ok done >> next = next
