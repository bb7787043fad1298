-- ===== src/Desktop/Pipe.antt =====
-- src-tauri/src/pipe.rs: the connection to the helper, with the elevated start of the helper on
-- macOS and Linux. What the system answers is an argument.
pub mod Polling
pub mod Shell
use yellow_vpn.Common.{
  ℕ, zero, suc, ◌+◌, ◌-◌, ◌*◌, ◌/◌, ◌%◌, ◌^◌, ◌≤◌, ◌<◌, String, ◌≡◌, refl, sym, ap, ◌∙◌, ◌≢◌, ◌↔◌,
  ◌⊎◌, inl, inr, Bool, true, false, not, ◌&&◌, ◌||◌, Option, none, some, List, [], ◌∷◌, ◌++◌, map,
  append-nil, append_assoc, arith, ltb, leb, ◌==◌, if◌then◌else◌, ltb→lt, ltb→le, lt→ltb, le→ltb,
  leb→le, ==_iff, ==_self, Bool-cases, Option-cases, length, get_or, take, drop, All, length-append,
  take-append-drop, length-take, length-drop, take-length_append, drop-length_append, take-append,
  drop-append, All-append, Bytes, IsByte, as_u8, as_u16, as_u32, be16, from_be16, be32, from_be32,
  from_be16-be16, from_be32-be32, as_bytes, from_utf8_lossy, IsScalar, from_utf8_lossy-as_bytes,
  codes,
}
use yellow_vpn.Common.Str.{decimal, starts_with, within}
use yellow_vpn.Error.{
  ensure, ◌>>◌, Text, Message, format, verbatim, caused, plain, VpnError, config, privilege, tun,
  tun_unavailable, routing, tls, protocol, auth_failed, server_disconnect, io, not_implemented,
  is_permanent, Result, ok, err, ◌>>=◌, Result-cases,
}

-- A failure in words: `io::Error`.
pub data PipeResult (A : Type 0) : Type 0 where
  done : A → PipeResult A
  failed : Message → PipeResult A

abbrev pub helper_missing : Message
helper_missing = plain "helper did not come up (socket never appeared)"

-- The polls that are left, from the attempt of the given number; the answer is the number of the
-- attempt that the helper took.
unfoldable pub poll : (attempt : ℕ → Bool) → ℕ → ℕ → PipeResult ℕ
poll attempt zero k = failed helper_missing
poll attempt (suc n) k = let later = poll attempt n (k + 1) in if attempt k then done k else later

abbrev pub after_spawn : (attempt : ℕ → Bool) → Option Message → PipeResult ℕ
after_spawn attempt none = poll attempt 150 1
after_spawn attempt (some m) = failed m

-- `attempt` says which attempts to connect succeed, and `spawn` how the start of the helper fails.
unfoldable pub connect_with_spawn : (attempt : ℕ → Bool) (spawn : Option Message) → PipeResult ℕ
unfolding poll
connect_with_spawn attempt spawn = if attempt 0 then done 0 else after_spawn attempt spawn

-- `char::is_control`.
abbrev pub is_control : ℕ → Bool
is_control c = leb c 0x1F || within 0x7F 0x9F c

-- The characters that could leave a quotation of the shell or of AppleScript.
abbrev pub is_unsafe : ℕ → Bool
is_unsafe c =
    c == b'\'' || (c == b'"' || (c == b'\\' || (c == b'`' || (c == b'$' || is_control c))))

-- No character that the test picks.
unfoldable pub has_none : (ℕ → Bool) → Text → Bool
has_none p [] = true
has_none p (c ∷ cs) = let rest = has_none p cs in if p c then false else rest

unfoldable pub shell_cmd : Text → ℕ → Text
unfolding decimal
shell_cmd path uid = b'\'' ∷ (path ++ (codes "' " ++ (decimal uid ++ codes " >/dev/null 2>&1 &")))

unfoldable pub script : Text → ℕ → Text
unfolding shell_cmd
script path uid =
    codes "do shell script \""
    ++ (shell_cmd path uid ++ (b'"' ∷ codes " with administrator privileges"))

-- macOS: the script that `osascript` runs.
unfoldable pub spawn_script : Text → ℕ → PipeResult Text
unfolding has_none script
spawn_script path uid =
    if has_none is_unsafe path
    then done (script path uid)
    else failed (plain "helper path contains characters unsafe for privileged execution")

-- Linux: the arguments of `pkexec`; a path is absolute where it begins with the separator.
unfoldable pub spawn_arguments : Text → ℕ → PipeResult (List Text)
unfolding has_none decimal
spawn_arguments path uid =
    if starts_with (b'/' ∷ []) path && has_none is_control path
    then done (path ∷ decimal uid ∷ [])
    else failed (plain "helper path is not a plain absolute path — refusing privileged spawn")
