-- ===== src/Helper/Socket.antt =====
-- crates/vpn-helper/src/main.rs, module unix_impl: the helper's socket on macOS and Linux. What the
-- helper asks of the system is a list of effects, and what the system answers is an argument. The
-- log file is left out.
pub mod Guarded
use yellow_vpn.Common.{
  ℕ, zero, suc, ◌+◌, ◌-◌, ◌*◌, ◌/◌, ◌%◌, ◌^◌, ◌≤◌, ◌<◌, String, ◌≡◌, refl, sym, ap, ◌∙◌, ◌≢◌, ◌↔◌,
  ◌⊎◌, inl, inr, Bool, true, false, not, ◌&&◌, ◌||◌, Option, none, some, List, [], ◌∷◌, ◌++◌, map,
  append-nil, append_assoc, arith, ltb, leb, ◌==◌, if◌then◌else◌, ltb→lt, ltb→le, lt→ltb, le→ltb,
  leb→le, ==_iff, ==_self, Bool-cases, Option-cases, length, get_or, take, drop, All, length-append,
  take-append-drop, length-take, length-drop, take-length_append, drop-length_append, take-append,
  drop-append, All-append, Bytes, IsByte, as_u8, as_u16, as_u32, be16, from_be16, be32, from_be32,
  from_be16-be16, from_be32-be32, as_bytes, from_utf8_lossy, IsScalar, from_utf8_lossy-as_bytes,
  codes,
}
use yellow_vpn.Common.Str.{parse_nat, u32_max}
use yellow_vpn.Error.{
  Text, Message, format, verbatim, caused, plain, VpnError, config, privilege, tun, tun_unavailable,
  routing, tls, protocol, auth_failed, server_disconnect, io, not_implemented, is_permanent,
  to_string, Result, ok, err, ◌>>=◌, Result-cases,
}

pub data SocketEffect : Type 0 where
  directory_prepared : SocketEffect
  socket_removed socket_left bound : SocketEffect
  umask_set owner_set mode_set : ℕ → SocketEffect
  served : ℕ → SocketEffect

-- How the creation of a directory ends.
pub data DirCreated : Type 0 where
  created already_exists : DirCreated
  not_created : Message → DirCreated

-- What is asked about the directory behind that; `symlink_metadata` answers whether the path is a
-- directory, and not a link.
pub record DirAnswers : Type 0 where
  pub create : DirCreated
  pub is_dir : Message ⊎ Bool
  pub chown : Option Message
  pub set_permissions : Option Message

abbrev pub or_then : Option Message → Option Message → Option Message
or_then (some m) next = some m
or_then none next = next

abbrev pub check_dir : Message ⊎ Bool → Option Message → Option Message
check_dir (inl m) next = some m
check_dir (inr false) next = some (plain "{dir} is not a real directory")
check_dir (inr true) next = next

abbrev pub after_create : DirCreated → Option Message → Option Message
after_create (not_created m) next = some m
after_create created next = next
after_create already_exists next = next

-- The error, if there is one.
unfoldable pub ensure_root_dir : DirAnswers → Option Message
ensure_root_dir a = after_create a.create (check_dir a.is_dir (or_then a.chown a.set_permissions))

-- A connection that is accepted, with the user that the kernel names, or the error of either.
pub data Accepted : Type 0 where
  accept_failed : Accepted
  no_credentials : Accepted
  peer : ℕ → Accepted

pub record SocketAnswers : Type 0 where
  pub argument : Option Text
  pub directory : DirAnswers
  pub umask : ℕ
  pub bind : Option Message
  pub chown : Option Message
  pub set_mode : Option Message
  pub accepts : List Accepted
  -- The answers to `remove_file` in front of the bind and at the end; the source drops both.
  pub stale_removal : Option Message
  pub removal : Option Message

abbrev pub uid_of : Option Text → Option ℕ
uid_of none = none
uid_of (some s) = parse_nat u32_max s

unfoldable pub owner_uid : SocketAnswers → Option ℕ
unfolding parse_nat
owner_uid a = uid_of a.argument

-- The effects, and whether the helper has ended; else it waits for a connection.
abbrev pub Run : Type 0
Run = List SocketEffect × Bool

abbrev pub after : List SocketEffect → Run → Run
after effects r = (effects ++ r.0, r.1)

abbrev pub is_allowed : ℕ → ℕ → Bool
is_allowed owner cred = cred == owner || cred == 0

abbrev pub remove_socket : Option Message → SocketEffect
remove_socket none = socket_removed
remove_socket (some m) = socket_left

-- The loop that accepts; `serve` runs up to its end, and then the socket is to be removed.
unfoldable pub accept_loop : SocketAnswers → ℕ → List Accepted → Run
accept_loop a owner [] = ([], false)
accept_loop a owner (accept_failed ∷ more) = (remove_socket a.removal ∷ [], true)
accept_loop a owner (no_credentials ∷ more) = accept_loop a owner more
accept_loop a owner (peer cred ∷ more) =
    let rest = accept_loop a owner more in
    if is_allowed owner cred then (served cred ∷ remove_socket a.removal ∷ [], true) else rest

abbrev pub lock_mode : SocketAnswers → ℕ → Option Message → Run
lock_mode a owner (some m) = (remove_socket a.removal ∷ [], true)
lock_mode a owner none = after (mode_set 0o600 ∷ []) (accept_loop a owner a.accepts)

abbrev pub lock_owner : SocketAnswers → ℕ → Option Message → Run
lock_owner a owner (some m) = (remove_socket a.removal ∷ [], true)
lock_owner a owner none = after (owner_set owner ∷ []) (lock_mode a owner a.set_mode)

-- The socket is bound under a umask, which is put back whatever the answer is.
abbrev pub bind_socket : SocketAnswers → ℕ → Option Message → Run
bind_socket a owner (some m) = (umask_set 0o177 ∷ umask_set a.umask ∷ [], true)
bind_socket a owner none =
    after (umask_set 0o177 ∷ bound ∷ umask_set a.umask ∷ []) (lock_owner a owner a.chown)

abbrev pub in_directory : SocketAnswers → ℕ → Option Message → Run
in_directory a owner (some m) = ([], true)
in_directory a owner none =
    after (directory_prepared ∷ remove_socket a.stale_removal ∷ []) (bind_socket a owner a.bind)

abbrev pub with_owner : SocketAnswers → Option ℕ → Run
with_owner a none = ([], true)
with_owner a (some owner) = in_directory a owner (ensure_root_dir a.directory)

unfoldable pub unix_main : SocketAnswers → Run
unfolding owner_uid ensure_root_dir accept_loop
unix_main a = with_owner a (owner_uid a)
