-- ===== src/Cli/Password/Kept.antt =====
-- crates/vpn-cli/src/main.rs: what holds of a password that is found, and of the terminal after it.
use yellow_vpn.Common.{
  ◌≡◌, refl, ◌⊎◌, inl, inr, Bool, true, false, Option, none, some, List, [], ◌∷◌, Bool-cases, Bytes,
}
use yellow_vpn.Common.Str.{is_empty}
use yellow_vpn.Error.{Text, Message}
use yellow_vpn.Cli.{Answer, done, refused, ◌>>=◌, Settings}
use yellow_vpn.Cli.Password.{
  TtyEffect, echo_off, echo_restored, restore_failed, stdin_read, reading, wrote, Terminal,
  read_line, utf8_or_fail, from_utf8, unless_empty, Prompted, password_of, after_read, attempted,
  prompt_password, or_next, resolve_password,
}

-- Whether the terminal echoes behind the effects; none where it was read while it did.
abbrev pub echo_after : Bool → List TtyEffect → Option Bool
echo_after echo [] = some echo
echo_after echo (echo_off ∷ effects) = echo_after false effects
echo_after echo (echo_restored ∷ effects) = echo_after true effects
echo_after echo (restore_failed ∷ effects) = echo_after echo effects
echo_after echo (stdin_read ∷ effects) = echo_after echo effects
echo_after echo (wrote s ∷ effects) = echo_after echo effects
echo_after true (reading ∷ effects) = none
echo_after false (reading ∷ effects) = echo_after false effects

-- A password that is answered has a character.
abbrev pub HasCharacter : Answer Text → Type 0
HasCharacter (done p) = is_empty p ≡ false
HasCharacter (refused m) = Unit {0}

-- The terminal echoes, or it was never read while it did and putting the echo back failed.
abbrev pub Echoes : Option Message → Option Bool → Type 0
Echoes none e = e ≡ some true
Echoes (some m) e = (e ≡ some true) ⊎ (e ≡ some false)

-- Behind an answer the terminal echoes again, and while the answer is awaited it does not.
abbrev pub IsKept : Option Message → Prompted → Type 0
IsKept restored (effects, some r) = Echoes restored (echo_after true effects) × HasCharacter r
IsKept restored (effects, none) = echo_after true effects ≡ some false

Echoes-true : (restored : Option Message) → Echoes restored (some true)
Echoes-true none = refl
Echoes-true (some m) = inl refl

unless_empty-HasCharacter : (m : Message) (s : Text) → HasCharacter (unless_empty m s)
unless_empty-HasCharacter m [] = tt
unless_empty-HasCharacter m (c ∷ cs) = refl

do-HasCharacter :
    {A : Type 0} (m : Answer A) (f : A → Answer Text)
    → ((a : A) → HasCharacter (f a))
    → HasCharacter (m >>= f)
do-HasCharacter (done a) f h = h a
do-HasCharacter (refused m) f h = tt

password_of-HasCharacter : (line : Answer Bytes) → HasCharacter (password_of line)
password_of-HasCharacter line =
    do-HasCharacter line _
      (λ bs. do-HasCharacter (utf8_or_fail (from_utf8 bs)) _ (λ p. unless_empty-HasCharacter _ p))

after_read-IsKept :
    (restored : Option Message) (prompt : Text) (line : Option (Answer Bytes))
    → IsKept restored (after_read restored prompt line)
after_read-IsKept restored prompt none = refl
after_read-IsKept none prompt (some line) = (refl, password_of-HasCharacter line)
after_read-IsKept (some m) prompt (some line) = (inr refl, password_of-HasCharacter line)

attempted-IsKept :
    {A : Type 0} (restored : Option Message) (r : Answer A) (next : Prompted)
    → IsKept restored next
    → IsKept restored (attempted r next)
attempted-IsKept restored (done u) next h = h
attempted-IsKept restored (refused m) next h = (Echoes-true restored, tt)

prompt_password-IsKept :
    (tty : Terminal) (prompt : Text) → IsKept tty.restored (prompt_password tty prompt)
unfolding prompt_password
prompt_password-IsKept tty prompt = attempted-IsKept tty.restored tty.opened _ (
    attempted-IsKept tty.restored tty.attributes _ (
      attempted-IsKept tty.restored tty.quieted _
        (after_read-IsKept tty.restored prompt (read_line tty.reads []))))

or_next-IsKept :
    (restored : Option Message) (o : Option Text) (next : Prompted)
    → IsKept restored next
    → IsKept restored (or_next o next)
or_next-IsKept restored none next h = h
or_next-IsKept restored (some []) next h = h
or_next-IsKept restored (some (c ∷ cs)) next h = (Echoes-true restored, refl)

-- Whatever the sources of the password answer, with the prompt of Unix: where the search for it
-- ends, a password that is found is not empty, and the terminal echoes as before, unless the system
-- failed to put the echo back; while the terminal is still read, it does not echo. The prompt never
-- reads the terminal with the echo on; `--password-stdin`, whose standard input may be one, is not
-- a prompt and leaves the echo as it is.
pub resolve_password-IsKept :
    (s : Settings) (stdin : Answer Text) (env : Option Text) (tty : Terminal) (host user : Text)
    → IsKept tty.restored (resolve_password s stdin env tty host user)
unfolding resolve_password
resolve_password-IsKept s stdin env tty host user = elim (Bool-cases s.password_stdin) [
  | inl from ↦
      rw from
        (Echoes-true tty.restored, do-HasCharacter stdin _ (λ buf. unless_empty-HasCharacter _ _))
  | inr other ↦ rw other (
      or_next-IsKept tty.restored env _
        (or_next-IsKept tty.restored s.password _ (prompt_password-IsKept tty _)))
]
