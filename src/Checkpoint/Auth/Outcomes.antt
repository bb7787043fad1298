-- ===== src/Checkpoint/Auth/Outcomes.antt =====
-- crates/vpn-engine/src/checkpoint/auth.rs: which replies of the gateway end the login.
use mathlib.Core.Option
use mathlib.Core.Path.{subst}
use yellow_vpn.Common.{
  ℕ, ◌≤◌, ◌≡◌, refl, sym, ◌∙◌, ◌≢◌, ◌↔◌, ◌⊎◌, inl, inr, true, false, Option, none, some, arith,
  ◌==◌, Bool-cases, Option-cases, length, as_bytes, codes,
}
use yellow_vpn.Common.Str.{text_eq, parse_nat}
use yellow_vpn.Error.{Text, VpnError, is_permanent, Result, ok, err, ◌>>=◌, Result-cases}
use yellow_vpn.Checkpoint.Ccc.{
  CccValue, atom, node, nil, field, get, as_atom, name, to_wire, parse, max_input_len,
}
use yellow_vpn.Checkpoint.Ccc.RoundTrip.{
  IsToken, WellFormed, is_bare_token, is_bare_token-IsToken, parse-to_wire,
}
use yellow_vpn.Checkpoint.Ccc.Refuse.{Passing, parse-Passing}
use yellow_vpn.Checkpoint.Auth.{
  required, named_response, return_code, atom_in, rejected, read_response, parse_ccc_response,
  default_tcpt_port,
}

-- The gateway's document names a return code, and it is not the one of a success.
abbrev pub Rejects : Text → Type 0
Rejects body =
    (doc : CccValue) × (rc : ℕ) × (parse body ≡ ok doc)
    × (named_response doc ≡ true)
    × (return_code doc ≡ some rc)
    × (rc ≢ 600)

required-Passing :
    {A : Type 0} (o : Option A) (e : VpnError) → is_permanent e ≡ false → Passing (required o e)
required-Passing none e h = h
required-Passing (some a) e h = tt

>>=-Passing :
    {A B : Type 0} (m : Result A) (f : A → Result B)
    → Passing m
    → ((a : A) → Passing (f a))
    → Passing (m >>= f)
>>=-Passing (ok a) f p g = g a
>>=-Passing (err e) f p g = p

read_response-rejected :
    (doc : CccValue) (rc : ℕ)
    → named_response doc ≡ true
    → return_code doc ≡ some rc
    → (rc == 600) ≡ false
    → read_response doc ≡ err (rejected rc)
unfolding read_response
read_response-rejected doc rc named code other = rw (named, code, other) refl

-- Every other document is read, or refused with a passing error.
read_response-Passing :
    (doc : CccValue)
    → ((rc : ℕ) → named_response doc ≡ true → return_code doc ≡ some rc → (rc == 600) ≡ true)
    → Passing (read_response doc)
unfolding read_response is_permanent
read_response-Passing doc success = elim (Bool-cases (named_response doc)) [
  | inr unnamed ↦ rw unnamed refl
  | inl named ↦ elim (Option-cases (return_code doc)) [
    | inl missing ↦ rw (named, missing) refl
    | inr (rc, present) ↦
        rw (named, present, success rc named present)
          (>>=-Passing (required (atom_in (codes "active_key") (get doc (codes "ResponseData"))) _)
            _
            (required-Passing (atom_in (codes "active_key") (get doc (codes "ResponseData"))) _
              refl)
            (λ key. tt))
  ]
]

not_600 : (rc : ℕ) → rc ≢ 600 → (rc == 600) ≡ false
not_600 rc ne = ground (arith, ne)

is_600-≢ : (rc : ℕ) → (rc == 600) ≡ false → rc ≢ 600
is_600-≢ rc h e = absurd (ground arith)

true-≢ : (true ≡ false) → ⊥
true-≢ e = cc

none-≢ : {A : Type 0} {a : A} → (none ≡ some a) → ⊥
none-≢ e = cc

some-≡ : {A : Type 0} {a b : A} → (some a ≡ some b) → a ≡ b
some-≡ e = cc

judged :
    (body : Text) (doc : CccValue)
    → parse body ≡ ok doc
    → Passing (read_response doc) ⊎ Rejects body
judged body doc read = elim (Bool-cases (named_response doc)) [
  | inr unnamed ↦
      inl (read_response-Passing doc (λ rc named. absurd (true-≢ (sym named ∙ unnamed))))
  | inl named ↦ elim (Option-cases (return_code doc)) [
    | inl missing ↦
        inl (read_response-Passing doc (λ rc named' code. absurd (none-≢ (sym missing ∙ code))))
    | inr (rc, code) ↦ elim (Bool-cases (rc == 600)) [
      | inl success ↦ inl (
          read_response-Passing doc
            (λ rc' named' code'. rw (sym (some-≡ (sym code ∙ code'))) success))
      | inr other ↦ inr (doc, rc, read, named, code, is_600-≢ rc other)
    ]
  ]
]

Passing-err :
    {A : Type 0} {m : Result A} {e : VpnError} → Passing m → m ≡ err e → is_permanent e ≡ false
Passing-err p h = subst Passing h p

err-≡ : {A : Type 0} {e e' : VpnError} {m : Result A} → m ≡ err e → m ≡ err e' → e ≡ e'
err-≡ h h' = cc

parse_ccc_response-judged : (body : Text) → Passing (parse_ccc_response body) ⊎ Rejects body
unfolding parse_ccc_response
parse_ccc_response-judged body = elim (Result-cases (parse body)) [
  | inl (doc, read) ↦ elim (judged body doc read) [
    | inl passing ↦ inl (rw read passing)
    | inr rejects ↦ inr rejects
  ]
  | inr (e, refused) ↦ inl (rw refused (Passing-err (parse-Passing body) refused))
]

parse_ccc_response-Rejects :
    (body : Text) → Rejects body → (rc : ℕ) × (parse_ccc_response body ≡ err (rejected rc))
unfolding parse_ccc_response
parse_ccc_response-Rejects body (doc, rc, read, named, code, other) =
    (rc, rw read (read_response-rejected doc rc named code (not_600 rc other)))

-- A refused login is a permanent error where the gateway's document names a return code other than
-- 600, and a passing one where the reply could not be understood or lacks the key.
pub is_permanent-parse_ccc_response :
    (body : Text) {e : VpnError}
    → parse_ccc_response body ≡ err e
    → is_permanent e ≡ true ↔ Rejects body
unfolding is_permanent
is_permanent-parse_ccc_response body {e} refused = (
  λ permanent. elim (parse_ccc_response-judged body) [
    | inl passing ↦ absurd (true-≢ (sym permanent ∙ Passing-err passing refused))
    | inr rejects ↦ rejects
  ],
  λ rejects.
      let (rc, answer) = parse_ccc_response-Rejects body rejects in rw (err-≡ refused answer) refl,
)

-- The reply of a gateway that lets the client in.
abbrev pub success_reply : Text → Text → CccValue
success_reply session_id key = node (some (codes "CCCserverResponse")) (
    field (codes "ResponseHeader")
      (node none (
        field (codes "return_code") (atom (codes "600"))
          (field (codes "session_id") (atom session_id) nil)))
      (field (codes "ResponseData") (node none (field (codes "active_key") (atom key) nil)) nil))

success_reply-WellFormed :
    (session_id key : Text)
    → IsToken session_id
    → IsToken key
    → WellFormed (success_reply session_id key)
unfolding is_bare_token
success_reply-WellFormed session_id key sid k = (
  is_bare_token-IsToken _ refl,
  (
    is_bare_token-IsToken _ refl,
    (
      (
        tt,
        (
          is_bare_token-IsToken _ refl,
          (is_bare_token-IsToken _ refl, (is_bare_token-IsToken _ refl, (sid, tt))),
        ),
      ),
      (is_bare_token-IsToken _ refl, ((tt, (is_bare_token-IsToken _ refl, (k, tt))), tt)),
    ),
  ),
)

-- The text of a reply with return code 600 gives the session with its identifier and its key, where
-- both are tokens and the text keeps to the parser's bound.
pub parse_ccc_response-to_wire :
    (session_id key : Text)
    → IsToken session_id
    → IsToken key
    → length (as_bytes (to_wire (success_reply session_id key))) ≤ max_input_len
    → parse_ccc_response (to_wire (success_reply session_id key))
      ≡ ok (record { session_id = session_id; active_key = key; tcpt_port = default_tcpt_port })
unfolding parse_ccc_response read_response return_code get as_atom name text_eq parse_nat
    Option.bind
parse_ccc_response-to_wire session_id key sid k short =
    rw (parse-to_wire _ _ (success_reply-WellFormed session_id key sid k) (omega arith) short) refl
