-- ===== src/Cli/Profile/Order.antt =====
-- crates/vpn-cli/src/main.rs: the order in which a profile's map is iterated.
use mathlib.Core.List.{Permᴰ}
use mathlib.Core.List.Permᴰ
use mathlib.Core.Path.{subst}
use yellow_vpn.Common.{
  ℕ, ◌≡◌, refl, sym, ap, ◌∙◌, ◌≢◌, ◌⊎◌, inl, inr, Bool, some, [], ◌∷◌, arith, All,
}
use yellow_vpn.Common.Str.{lines}
use yellow_vpn.Error.{Text, Message}
use yellow_vpn.Cli.{
  Answer, done, refused, ◌>>=◌, Settings, default_settings, parse_port, parse_protocol, parse_bool,
}
use yellow_vpn.Config.{Protocol}
use yellow_vpn.Cli.Profile.{
  Key, host_key, port_key, username_key, password_key, protocol_key, realm_key, insecure_key,
  servercert_key, unknown_key, key_of, Entries, read_lines, set_entry, set_all, parse_profile,
}

-- What an entry sets, once its value is read.
data Update : Type 0 where
  to_host to_username to_password to_realm to_servercert : Text → Update
  to_port : ℕ → Update
  to_protocol : Protocol → Update
  to_insecure : Bool → Update

abbrev key : Update → Key
key (to_host v) = host_key
key (to_username v) = username_key
key (to_password v) = password_key
key (to_realm v) = realm_key
key (to_servercert v) = servercert_key
key (to_port n) = port_key
key (to_protocol p) = protocol_key
key (to_insecure b) = insecure_key

abbrev put : Update → Settings → Settings
put (to_host v) s = record s { host = some v }
put (to_username v) s = record s { username = some v }
put (to_password v) s = record s { password = some v }
put (to_realm v) s = record s { realm = some v }
put (to_servercert v) s = record s { servercert = some v }
put (to_port n) s = record s { port = some n }
put (to_protocol p) s = record s { protocol = some p }
put (to_insecure b) s = record s { insecure = some b }

put-put : (u w : Update) (s : Settings) → key u ≢ key w → put w (put u s) ≡ put u (put w s)
put-put (to_host v) (to_host w) s h = absurd (h refl)
put-put (to_username v) (to_username w) s h = absurd (h refl)
put-put (to_password v) (to_password w) s h = absurd (h refl)
put-put (to_realm v) (to_realm w) s h = absurd (h refl)
put-put (to_servercert v) (to_servercert w) s h = absurd (h refl)
put-put (to_port v) (to_port w) s h = absurd (h refl)
put-put (to_protocol v) (to_protocol w) s h = absurd (h refl)
put-put (to_insecure v) (to_insecure w) s h = absurd (h refl)
put-put _ _ s h = refl

-- An entry is read as an update, or it is refused, whatever was set before.
abbrev Reading : Key → Text → Text → Type 0
Reading c k v =
    ((u : Update) × (key u ≡ c) × ((s : Settings) → set_entry c k v s ≡ done (put u s)))
    ⊎ ((m : Message) × ((s : Settings) → set_entry c k v s ≡ refused m))

Answer-cases :
    {A : Type 0} (r : Answer A) → ((a : A) × (r ≡ done a)) ⊎ ((m : Message) × (r ≡ refused m))
Answer-cases (done a) = inl (a, refl)
Answer-cases (refused m) = inr (m, refl)

set_entry-Reading : (c : Key) (k v : Text) → Reading c k v
unfolding set_entry
set_entry-Reading host_key k v = inl (to_host v, refl, λ s. refl)
set_entry-Reading port_key k v = elim (Answer-cases (parse_port v)) [
  | inl (n, e) ↦ inl (to_port n, refl, λ s. rw e refl)
  | inr (m, e) ↦ inr (m, λ s. rw e refl)
]
set_entry-Reading username_key k v = inl (to_username v, refl, λ s. refl)
set_entry-Reading password_key k v = inl (to_password v, refl, λ s. refl)
set_entry-Reading protocol_key k v = elim (Answer-cases (parse_protocol v)) [
  | inl (p, e) ↦ inl (to_protocol p, refl, λ s. rw e refl)
  | inr (m, e) ↦ inr (m, λ s. rw e refl)
]
set_entry-Reading realm_key k v = inl (to_realm v, refl, λ s. refl)
set_entry-Reading insecure_key k v = elim (Answer-cases (parse_bool v)) [
  | inl (b, e) ↦ inl (to_insecure b, refl, λ s. rw e refl)
  | inr (m, e) ↦ inr (m, λ s. rw e refl)
]
set_entry-Reading servercert_key k v = inl (to_servercert v, refl, λ s. refl)
set_entry-Reading unknown_key k v = inr (_, λ s. refl)

abbrev pub entry_key : Text × Text → Key
entry_key e = key_of e.0

set_all-done :
    (k v : Text) (kv : Entries) (s s' : Settings)
    → set_entry (key_of k) k v s ≡ done s'
    → set_all ((k, v) ∷ kv) s ≡ set_all kv s'
unfolding set_all
set_all-done k v kv s s' e = rw e refl

set_all-refused :
    (k v : Text) (kv : Entries) (s : Settings) (m : Message)
    → set_entry (key_of k) k v s ≡ refused m
    → set_all ((k, v) ∷ kv) s ≡ refused m
unfolding set_all
set_all-refused k v kv s m e = rw e refl

refused-≢_done : {A : Type 0} (m : Message) (r : A) → refused m ≢ done r
refused-≢_done m r h = ground arith

-- Where entries of which the first is refused are read, anything follows.
refused_first :
    (k v : Text) (kv : Entries) (s r : Settings) (m : Message)
    → ((t : Settings) → set_entry (key_of k) k v t ≡ refused m)
    → set_all ((k, v) ∷ kv) s ≢ done r
refused_first k v kv s r m e h = refused-≢_done m r (sym (set_all-refused k v kv s m (e s)) ∙ h)

-- Two entries of different settings can change places.
set_all-swap :
    (a b : Text × Text) (kv : Entries) (s r : Settings)
    → entry_key a ≢ entry_key b
    → set_all (a ∷ b ∷ kv) s ≡ done r
    → set_all (b ∷ a ∷ kv) s ≡ done r
set_all-swap (k, v) (k', v') kv s r other h = elim (set_entry-Reading (key_of k) k v) [
  | inr (m, e) ↦ absurd (refused_first k v ((k', v') ∷ kv) s r m e h)
  | inl (u, same, e) ↦
      let at_second = sym (set_all-done k v ((k', v') ∷ kv) s (put u s) (e s)) ∙ h in
      elim (set_entry-Reading (key_of k') k' v') [
        | inr (m, e') ↦ absurd (refused_first k' v' kv (put u s) r m e' at_second)
        | inl (w, same', e') ↦
            let apart = put-put u w s (λ p. other (sym same ∙ (p ∙ same'))) in
            set_all-done k' v' ((k, v) ∷ kv) s (put w s) (e' s)
            ∙ (set_all-done k v kv (put w s) (put u (put w s)) (e (put w s))
                ∙ (ap (set_all kv) (sym apart)
                    ∙ (sym (set_all-done k' v' kv (put u s) (put w (put u s)) (e' (put u s)))
                        ∙ at_second)))
      ]
]

-- The entries set different settings.
abbrev pub Distinct : Entries → Type 0
Distinct [] = Unit {0}
Distinct (e ∷ kv) = All (λ e'. entry_key e ≢ entry_key e') kv × Distinct kv

All-perm : (P : Text × Text → Type 0) {l l' : Entries} → Permᴰ l l' → All P l → All P l'
All-perm P Permᴰ.nil h = tt
All-perm P (Permᴰ.cons e d) (h, hs) = (subst P e h, All-perm P d hs)
All-perm P (Permᴰ.swap e e') (h, (h', hs)) = (subst P e' h', (subst P e h, hs))
All-perm P (Permᴰ.trans d d') h = All-perm P d' (All-perm P d h)

Distinct-perm : {l l' : Entries} → Permᴰ l l' → Distinct l → Distinct l'
Distinct-perm Permᴰ.nil h = tt
Distinct-perm (Permᴰ.cons {l₁ = l₁} e d) (h, hs) =
    (All-perm _ d (subst (λ x. All (λ e'. entry_key x ≢ entry_key e') l₁) e h), Distinct-perm d hs)
Distinct-perm (Permᴰ.swap {a = a} {a' = a'} {l = l} e e') ((h, hs), (hs', rest)) = (
  (
    subst (λ x. entry_key a' ≢ entry_key x) e
        (subst (λ x. entry_key x ≢ entry_key a) e' (λ p. h (sym p))),
    subst (λ x. All (λ y. entry_key x ≢ entry_key y) l) e' hs',
  ),
  (subst (λ x. All (λ y. entry_key x ≢ entry_key y) l) e hs, rest),
)
Distinct-perm (Permᴰ.trans d d') h = Distinct-perm d' (Distinct-perm d h)

set_all-perm :
    {l l' : Entries}
    → Permᴰ l l'
    → Distinct l
    → (s r : Settings) → set_all l s ≡ done r
    → set_all l' s ≡ done r
set_all-perm Permᴰ.nil distinct s r h = h
set_all-perm (Permᴰ.cons {a = (k, v)} {l₁ = l₁} {l₂ = l₂} e d) (apart, distinct) s r h =
    elim (set_entry-Reading (key_of k) k v) [
      | inr (m, e') ↦ absurd (refused_first k v l₁ s r m e' h)
      | inl (u, same, e') ↦
          subst (λ x. set_all (x ∷ l₂) s ≡ done r) e
            (set_all-done k v l₂ s (put u s) (e' s)
              ∙ set_all-perm d distinct (put u s) r
                  (sym (set_all-done k v l₁ s (put u s) (e' s)) ∙ h))
    ]
set_all-perm (Permᴰ.swap {a = a} {b = b} {b' = b'} {l = l} e e') (apart, distinct) s r h =
    subst (λ x. set_all (x ∷ b' ∷ l) s ≡ done r) e'
      (subst (λ x. set_all (b ∷ x ∷ l) s ≡ done r) e (set_all-swap a b l s r apart.0 h))
set_all-perm (Permᴰ.trans d d') distinct s r h =
    set_all-perm d' (Distinct-perm d distinct) s r (set_all-perm d distinct s r h)

abbrev pub Reorders : (Entries → Entries) → Type 0
Reorders order = (kv : Entries) → Permᴰ kv (order kv)

abbrev pub IsDistinct : Answer Entries → Type 0
IsDistinct (done kv) = Distinct kv
IsDistinct (refused m) = Unit {0}

-- No two keys of the text name one setting.
abbrev pub NoAliases : Text → Type 0
NoAliases text = IsDistinct (read_lines 0 (lines text) [])

do-done :
    (m : Answer Entries) (f : Entries → Answer Settings) (r : Settings)
    → (m >>= f) ≡ done r
    → (kv : Entries) × (m ≡ done kv) × (f kv ≡ done r)
do-done (done kv) f r h = (kv, refl, h)
do-done (refused m) f r h = absurd (refused-≢_done m r h)

-- A profile in which no two keys name one setting, which is read with its map in one order, is
-- read as the same settings with its map in any other.
pub parse_profile-Reorders :
    (order order' : Entries → Entries) (text : Text) (s : Settings)
    → Reorders order
    → Reorders order'
    → NoAliases text
    → parse_profile order text ≡ done s
    → parse_profile order' text ≡ done s
unfolding parse_profile
parse_profile-Reorders order order' text s p p' aliases h =
    let (kv, read, set) = do-done (read_lines 0 (lines text) []) _ s h in
    let distinct = subst IsDistinct read aliases in
    ap (λ m. (do kv' ← m; set_all (order' kv') default_settings)) read
    ∙ set_all-perm (Permᴰ.trans (Permᴰ.symm (p kv)) (p' kv)) (Distinct-perm (p kv) distinct)
        default_settings s set
