-- ===== src/Login/Escape.antt =====
-- crates/vpn-engine/src/auth.rs: how a credential stands in the login document.
use yellow_vpn.Common.{
  ℕ, ◌≡◌, refl, sym, ◌∙◌, inl, inr, Bool, false, ◌||◌, [], ◌∷◌, ◌++◌, append_assoc, ◌==◌,
  if◌then◌else◌, Bool-cases, All, All-append, codes,
}
use yellow_vpn.Error.{Text}
use yellow_vpn.Login.{replace, xml_escape}

-- The escape of each character by itself.
abbrev pub escape_char : ℕ → Text
escape_char c =
    if c == b'&'
    then codes "&amp;"
    else if c == b'<'
    then codes "&lt;"
    else if c == b'>'
    then codes "&gt;"
    else if c == b'"'
    then codes "&quot;"
    else if c == b'\''
    then codes "&apos;"
    else c ∷ []

abbrev pub escape_all : Text → Text
escape_all [] = []
escape_all (c ∷ cs) = escape_char c ++ escape_all cs

replace-append :
    (from : ℕ) (to s t : Text) → replace from to (s ++ t) ≡ replace from to s ++ replace from to t
unfolding replace
replace-append from to [] t = refl
replace-append from to (c ∷ s) t =
    rw (replace-append from to s t) (sym (append_assoc (if c == from then to else c ∷ []) _ _))

xml_escape-append : (s t : Text) → xml_escape (s ++ t) ≡ xml_escape s ++ xml_escape t
unfolding xml_escape
xml_escape-append s t =
    rw
      (
        replace-append b'&' (codes "&amp;") s t,
        replace-append b'<' (codes "&lt;") _ _,
        replace-append b'>' (codes "&gt;") _ _,
        replace-append b'"' (codes "&quot;") _ _,
        replace-append b'\'' (codes "&apos;") _ _,
      )
      refl

xml_escape-char : (c : ℕ) → xml_escape (c ∷ []) ≡ escape_char c
unfolding xml_escape
xml_escape-char c = elim (Bool-cases (c == b'&')) [
  | inl amp ↦ rw amp refl
  | inr a ↦ elim (Bool-cases (c == b'<')) [
    | inl lt ↦ rw (a, lt) refl
    | inr b ↦ elim (Bool-cases (c == b'>')) [
      | inl gt ↦ rw (a, b, gt) refl
      | inr d ↦ elim (Bool-cases (c == b'"')) [
        | inl quot ↦ rw (a, b, d, quot) refl
        | inr e ↦ elim (Bool-cases (c == b'\'')) [
          | inl apos ↦ rw (a, b, d, e, apos) refl
          | inr f ↦ rw (a, b, d, e, f) refl
        ]
      ]
    ]
  ]
]

-- A character that opens or closes markup.
abbrev pub is_markup : ℕ → Bool
is_markup c = c == b'<' || (c == b'>' || (c == b'"' || c == b'\''))

abbrev pub NoMarkup : Text → Type 0
NoMarkup s = All (λ c. is_markup c ≡ false) s

escape_char-NoMarkup : (c : ℕ) → NoMarkup (escape_char c)
escape_char-NoMarkup c = elim (Bool-cases (c == b'&')) [
  | inl amp ↦ rw amp (refl, (refl, (refl, (refl, (refl, tt)))))
  | inr a ↦ elim (Bool-cases (c == b'<')) [
    | inl lt ↦ rw (a, lt) (refl, (refl, (refl, (refl, tt))))
    | inr b ↦ elim (Bool-cases (c == b'>')) [
      | inl gt ↦ rw (a, b, gt) (refl, (refl, (refl, (refl, tt))))
      | inr d ↦ elim (Bool-cases (c == b'"')) [
        | inl quot ↦ rw (a, b, d, quot) (refl, (refl, (refl, (refl, (refl, (refl, tt))))))
        | inr e ↦ elim (Bool-cases (c == b'\'')) [
          | inl apos ↦ rw (a, b, d, e, apos) (refl, (refl, (refl, (refl, (refl, (refl, tt))))))
          | inr f ↦ rw (a, b, d, e, f) (rw (b, d, e, f) refl, tt)
        ]
      ]
    ]
  ]
]

escape_all-NoMarkup : (s : Text) → NoMarkup (escape_all s)
escape_all-NoMarkup [] = tt
escape_all-NoMarkup (c ∷ s) =
    All-append (λ c. is_markup c ≡ false) (escape_char c) (escape_all s) (escape_char-NoMarkup c)
      (escape_all-NoMarkup s)

xml_escape-each : (s : Text) → xml_escape s ≡ escape_all s
xml_escape-each [] = unfold xml_escape in refl
xml_escape-each (c ∷ s) =
    xml_escape-append (c ∷ []) s ∙ rw (xml_escape-char c, xml_escape-each s) refl

-- The five replacements, one behind the other, escape each character of a credential by itself, so
-- that no ampersand which one of them brings in is escaped by another; and no character that opens
-- or closes markup is left.
pub xml_escape_lem : (s : Text) → (xml_escape s ≡ escape_all s) × NoMarkup (xml_escape s)
xml_escape_lem s = (xml_escape-each s, rw (xml_escape-each s) (escape_all-NoMarkup s))
