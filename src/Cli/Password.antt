-- ===== src/Cli/Password.antt =====
-- crates/vpn-cli/src/main.rs: where the password comes from, with the prompt on a Unix terminal.
-- What the terminal, the standard input and the environment answer are arguments, and what the
-- prompt does to the terminal is a list of effects.
pub mod Kept
use yellow_vpn.Common.{
  ℕ, zero, suc, ◌+◌, ◌-◌, ◌*◌, ◌/◌, ◌%◌, ◌^◌, ◌≤◌, ◌<◌, String, ◌≡◌, refl, sym, ap, ◌∙◌, ◌≢◌, ◌↔◌,
  ◌⊎◌, inl, inr, Bool, true, false, not, ◌&&◌, ◌||◌, Option, none, some, List, [], ◌∷◌, ◌++◌, map,
  append-nil, append_assoc, arith, ltb, leb, ◌==◌, if◌then◌else◌, ltb→lt, ltb→le, lt→ltb, le→ltb,
  leb→le, ==_iff, ==_self, Bool-cases, Option-cases, length, get_or, take, drop, All, length-append,
  take-append-drop, length-take, length-drop, take-length_append, drop-length_append, take-append,
  drop-append, All-append, Bytes, IsByte, as_u8, as_u16, as_u32, be16, from_be16, be32, from_be32,
  from_be16-be16, from_be32-be32, as_bytes, from_utf8_lossy, IsScalar, from_utf8_lossy-as_bytes,
  codes,
}
use yellow_vpn.Common.Str.{text_eq, trim_end_by, is_empty}
use yellow_vpn.Error.{
  Text, Message, format, verbatim, caused, plain, VpnError, config, privilege, tun, tun_unavailable,
  routing, tls, protocol, auth_failed, server_disconnect, io, not_implemented, is_permanent,
  to_string, Result, ok, err, Result-cases,
}
use yellow_vpn.Cli.{Answer, done, refused, ◌>>=◌, Settings}

-- `reading` is of the terminal that the prompt opens, `stdin_read` of the standard input.
pub data TtyEffect : Type 0 where
  echo_off echo_restored restore_failed reading stdin_read : TtyEffect
  wrote : Text → TtyEffect

-- A read of one byte.
pub data ByteRead : Type 0 where
  byte : ℕ → ByteRead
  end_of_input : ByteRead
  broken : Message → ByteRead

-- The answers to `open`, `tcgetattr`, `tcsetattr` without the echo, the reads, and the `tcsetattr`
-- that puts the echo back, whose error is dropped.
pub record Terminal : Type 0 where
  pub opened : Answer (Unit {0})
  pub attributes : Answer (Unit {0})
  pub quieted : Answer (Unit {0})
  pub reads : List ByteRead
  pub restored : Option Message

-- The loop over the bytes; without an answer it waits for another read.
unfoldable pub read_line : List ByteRead → Bytes → Option (Answer Bytes)
read_line [] line = none
read_line (end_of_input ∷ reads) line = some (done line)
read_line (broken m ∷ reads) line = some (refused (caused (plain "reading password") m))
read_line (byte b ∷ reads) line =
    let same = read_line reads line in
    let more = read_line reads (line ++ (b ∷ [])) in
    if b == 10 then some (done line) else if b == 13 then same else more

-- `String::from_utf8`: a text whose bytes are the given ones.
unfoldable pub from_utf8 : Bytes → Option Text
unfolding from_utf8_lossy as_bytes text_eq
from_utf8 bs = let s = from_utf8_lossy bs in if text_eq (as_bytes s) bs then some s else none

abbrev pub utf8_or_fail : Option Text → Answer Text
utf8_or_fail none = refused (plain "password is not valid UTF-8")
utf8_or_fail (some s) = done s

abbrev pub unless_empty : Message → Text → Answer Text
unless_empty m [] = refused m
unless_empty m (c ∷ cs) = done (c ∷ cs)

-- An answer with the effects behind it; the terminal may still be read.
abbrev pub Prompted : Type 0
Prompted = List TtyEffect × Option (Answer Text)

abbrev pub password_of : Answer Bytes → Answer Text
password_of line = do
  bs ← line
  p ← utf8_or_fail (from_utf8 bs)
  unless_empty (plain "empty password") p

abbrev pub restore : Option Message → TtyEffect
restore none = echo_restored
restore (some m) = restore_failed

abbrev pub after_read : Option Message → Text → Option (Answer Bytes) → Prompted
after_read restored prompt none = (echo_off ∷ wrote prompt ∷ reading ∷ [], none)
after_read restored prompt (some line) = (
  echo_off ∷ wrote prompt ∷ reading ∷ restore restored ∷ wrote (codes "\n") ∷ [],
  some (password_of line),
)

abbrev pub attempted : {A : Type 0} → Answer A → Prompted → Prompted
attempted (refused m) next = ([], some (refused m))
attempted (done u) next = next

unfoldable pub prompt_password : Terminal → Text → Prompted
unfolding read_line from_utf8
prompt_password tty prompt = attempted tty.opened (
    attempted tty.attributes
      (attempted tty.quieted (after_read tty.restored prompt (read_line tty.reads []))))

-- The end of a line.
abbrev pub is_line_end : ℕ → Bool
is_line_end c = c == 13 || c == 10

abbrev pub from_stdin : Answer Text → Answer Text
from_stdin input = do
  buf ← input
  unless_empty (plain "--password-stdin was given but stdin was empty")
      (trim_end_by is_line_end buf)

abbrev pub or_next : Option Text → Prompted → Prompted
or_next none next = next
or_next (some []) next = next
or_next (some (c ∷ cs)) next = ([], some (done (c ∷ cs)))

-- The environment comes before the profile.
unfoldable pub resolve_password :
    Settings → (stdin : Answer Text) → (env : Option Text) → Terminal → Text → Text → Prompted
unfolding prompt_password trim_end_by
resolve_password s stdin env tty host user =
    if s.password_stdin
    then (stdin_read ∷ [], some (from_stdin stdin))
    else or_next env (
        or_next s.password
          (prompt_password tty (codes "Password for " ++ (user ++ (b'@' ∷ (host ++ codes ": "))))))
