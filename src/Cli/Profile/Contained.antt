-- ===== src/Cli/Profile/Contained.antt =====
-- crates/vpn-cli/src/main.rs: which files the loading of a profile can read.
use yellow_vpn.Common.{
  ℕ, ◌≡◌, refl, ap, inl, inr, true, false, [], ◌∷◌, ◌++◌, arith, ◌==◌, Bool-cases, codes,
}
use yellow_vpn.Common.Str.{text_eq, contains}
use yellow_vpn.Error.{Text}
use yellow_vpn.Cli.{Answer, ◌>>=◌}
use yellow_vpn.Cli.Profile.{Entries, join, is_valid_name, load_profile, parse_profile, located}

-- The name of an entry of a directory: no separator, and neither of the two names of directories.
abbrev pub IsEntryName : Text → Type 0
IsEntryName c =
    (contains (b'/' ∷ []) c ≡ false)
    × (text_eq c (codes ".") ≡ false)
    × (text_eq c (codes "..") ≡ false)

contains-append :
    (x : ℕ) (s t : Text)
    → contains (x ∷ []) s ≡ false
    → contains (x ∷ []) t ≡ false
    → contains (x ∷ []) (s ++ t) ≡ false
unfolding contains
contains-append x [] t h h' = h'
contains-append x (c ∷ s) t h h' =
    let here : (x == c) ≡ false = ground arith in
    let later : contains (x ∷ []) s ≡ false = ground arith in
    rw (here, contains-append x s t later h') refl

conf-IsEntryName :
    (name : Text) → contains (b'/' ∷ []) name ≡ false → IsEntryName (name ++ codes ".conf")
unfolding contains text_eq
conf-IsEntryName [] h = (refl, refl, refl)
conf-IsEntryName (c ∷ []) h =
    (contains-append b'/' (c ∷ []) (codes ".conf") h refl, ground arith, ground arith)
conf-IsEntryName (c ∷ (d ∷ [])) h =
    (contains-append b'/' (c ∷ (d ∷ [])) (codes ".conf") h refl, ground arith, ground arith)
conf-IsEntryName (c ∷ (d ∷ (e ∷ s))) h =
    (contains-append b'/' (c ∷ (d ∷ (e ∷ s))) (codes ".conf") h refl, ground arith, ground arith)

valid-separator : (name : Text) → is_valid_name name ≡ true → contains (b'/' ∷ []) name ≡ false
unfolding is_valid_name
valid-separator name h = ground arith

-- What is loaded depends only on the entries of the directory themselves, whatever the name is:
-- two file systems that agree on those answer alike, so a name leads to no file outside.
pub load_profile-Contained :
    (order : Entries → Entries) (read read' : Text → Answer Text) (dir name : Text)
    → ((c : Text) → IsEntryName c → read (join dir c) ≡ read' (join dir c))
    → load_profile order read dir name ≡ load_profile order read' dir name
unfolding load_profile
load_profile-Contained order read read' dir name same = elim (Bool-cases (is_valid_name name)) [
  | inr bad ↦ rw bad refl
  | inl good ↦
      let child = conf-IsEntryName name (valid-separator name good) in
      let path = join dir (name ++ codes ".conf") in
      rw good (
        ap (λ m. (do text ← m; located path (parse_profile order text)))
          (same (name ++ codes ".conf") child))
]
