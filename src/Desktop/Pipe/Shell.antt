-- ===== src/Desktop/Pipe/Shell.antt =====
-- src-tauri/src/pipe.rs: how the script that runs with privileges is read.
use yellow_vpn.Common.{
  ℕ, zero, suc, ◌+◌, ◌/◌, ◌%◌, ◌<◌, ◌≡◌, refl, sym, ap, ◌∙◌, ◌≢◌, inl, inr, Bool, true, false, ◌||◌,
  [], ◌∷◌, ◌++◌, arith, ltb, ◌==◌, Bool-cases, drop, codes,
}
use mathlib.Core.Path.{subst}
use yellow_vpn.Common.Str.{span_until, decimal, decimal_digits}
use yellow_vpn.Error.{Text}
use yellow_vpn.Desktop.Pipe.{done, is_unsafe, has_none, shell_cmd, script, spawn_script}

-- A text with a part in quotation marks: what stands in front of the first of the marks, what
-- stands between the first two, and the rest from the second on.
abbrev pub quoted : ℕ → Text → Text × (Text × Text)
quoted mark s =
    let (front, behind) = span_until (λ c. c == mark) s in
    (front, span_until (λ c. c == mark) (drop 1 behind))

span_until-stop :
    (p : ℕ → Bool) (s : Text) (c : ℕ) (t : Text)
    → has_none p s ≡ true
    → p c ≡ true
    → span_until p (s ++ (c ∷ t)) ≡ (s, c ∷ t)
unfolding span_until has_none
span_until-stop p [] c t h e = rw e refl
span_until-stop p (x ∷ s) c t h e = elim (Bool-cases (p x)) [
  | inl hit ↦ absurd (ground arith)
  | inr miss ↦ rw (miss, span_until-stop p s c t (ground arith) e) refl
]

-- A test that picks fewer characters.
has_none-weaken :
    (p q : ℕ → Bool) (s : Text)
    → ((c : ℕ) → p c ≡ false → q c ≡ false)
    → has_none p s ≡ true
    → has_none q s ≡ true
unfolding has_none
has_none-weaken p q [] fewer h = refl
has_none-weaken p q (c ∷ s) fewer h = elim (Bool-cases (p c)) [
  | inl hit ↦ absurd (ground arith)
  | inr miss ↦ rw (fewer c miss) (has_none-weaken p q s fewer (ground arith))
]

has_none-append :
    (p : ℕ → Bool) (s t : Text)
    → has_none p s ≡ true
    → has_none p t ≡ true
    → has_none p (s ++ t) ≡ true
unfolding has_none
has_none-append p [] t h h' = h'
has_none-append p (c ∷ s) t h h' = elim (Bool-cases (p c)) [
  | inl hit ↦ absurd (ground arith)
  | inr miss ↦ rw miss (has_none-append p s t (ground arith) h')
]

has_none-decimal_digits :
    (p : ℕ → Bool) (k n : ℕ) (s : Text)
    → ((d : ℕ) → d < 10 → p (b'0' + d) ≡ false)
    → has_none p s ≡ true
    → has_none p (decimal_digits k n s) ≡ true
unfolding has_none decimal_digits
has_none-decimal_digits p zero n s digits h = h
has_none-decimal_digits p (suc k) n s digits h = elim (Bool-cases (ltb n 10)) [
  | inl small ↦ rw (small, digits n (ground arith)) h
  | inr large ↦ rw large (
      has_none-decimal_digits p k (n / 10) ((b'0' + n % 10) ∷ s) digits
        (rw (digits (n % 10) (omega arith)) h))
]

has_none-decimal :
    (p : ℕ → Bool) (n : ℕ)
    → ((d : ℕ) → d < 10 → p (b'0' + d) ≡ false)
    → has_none p (decimal n) ≡ true
unfolding decimal has_none
has_none-decimal p n digits = has_none-decimal_digits p (suc n) n [] digits refl

-- A mark of AppleScript: the end of a string, or an escape.
abbrev pub is_mark : ℕ → Bool
is_mark c = c == b'"' || c == b'\\'

unsafe-mark : (c : ℕ) → is_unsafe c ≡ false → is_mark c ≡ false
unsafe-mark c h = ground arith

unsafe-quote : (c : ℕ) → is_unsafe c ≡ false → (c == b'\'') ≡ false
unsafe-quote c h = ground arith

mark-quote : (c : ℕ) → is_mark c ≡ false → (c == b'"') ≡ false
mark-quote c h = ground arith

digit-mark : (d : ℕ) → d < 10 → is_mark (b'0' + d) ≡ false
digit-mark d h = ground arith

has_none-shell_cmd :
    (path : Text) (uid : ℕ)
    → has_none is_unsafe path ≡ true
    → has_none is_mark (shell_cmd path uid) ≡ true
unfolding shell_cmd has_none
has_none-shell_cmd path uid safe =
    has_none-append is_mark path _ (has_none-weaken is_unsafe is_mark path unsafe-mark safe)
      (has_none-append is_mark (decimal uid) _ (has_none-decimal is_mark uid digit-mark) refl)

done-inj : {A : Type 0} {a b : A} → done a ≡ done b → a ≡ b
done-inj h = ground arith

-- How the script is read: `do shell script`, then a string that is the shell's command, with no
-- escape in it, then the request for privileges; and the command begins with the path in single
-- quotes, whole and alone, behind which only the user follows and the redirections.
abbrev pub ReadsAs : Text → ℕ → Text → Type 0
ReadsAs path uid s =
    (quoted b'"' s
      ≡ (codes "do shell script ", (shell_cmd path uid, codes "\" with administrator privileges")))
    × (has_none is_mark (shell_cmd path uid) ≡ true)
    × (quoted b'\'' (shell_cmd path uid)
        ≡ ([], (path, codes "' " ++ (decimal uid ++ codes " >/dev/null 2>&1 &"))))

script-ReadsAs :
    (path : Text) (uid : ℕ) → has_none is_unsafe path ≡ true → ReadsAs path uid (script path uid)
unfolding script shell_cmd span_until
script-ReadsAs path uid safe =
    let no_mark = has_none-shell_cmd path uid safe in
    (
      ap (λ (x : Text × Text). (codes "do shell script ", x))
          (span_until-stop (λ c. c == b'"') (shell_cmd path uid) b'"' _
            (has_none-weaken is_mark (λ c. c == b'"') (shell_cmd path uid) mark-quote no_mark)
            refl),
      no_mark,
      ap (λ (x : Text × Text). ([], x))
          (span_until-stop (λ c. c == b'\'') path b'\'' _
            (has_none-weaken is_unsafe (λ c. c == b'\'') path unsafe-quote safe) refl),
    )

spawn_refused :
    (path : Text) (uid : ℕ) (s : Text)
    → has_none is_unsafe path ≡ false
    → spawn_script path uid ≢ done s
unfolding spawn_script
spawn_refused path uid s unsafe h = ground arith

-- Whatever the path of the helper looks like: the script that is run with privileges, where one is
-- run, is `do shell script`, one string without an escape, and the request for privileges; the
-- string is a shell command that begins with this path in single quotes, the whole path and nothing
-- else in them, and has the user's number and the redirections behind it. So nothing of the path
-- is read as a command of the shell or of AppleScript, and nothing runs in front of it.
pub spawn_script-ReadsAs :
    (path : Text) (uid : ℕ) (s : Text) → spawn_script path uid ≡ done s → ReadsAs path uid s
unfolding spawn_script
spawn_script-ReadsAs path uid s h = elim (Bool-cases (has_none is_unsafe path)) [
  | inl safe ↦
      subst (ReadsAs path uid) (done-inj (sym (rw safe refl) ∙ h)) (script-ReadsAs path uid safe)
  | inr unsafe ↦ absurd (spawn_refused path uid s unsafe h)
]
