-- ===== src/Helper/Socket/Guarded.antt =====
-- crates/vpn-helper/src/main.rs, module unix_impl: who can reach the helper through its socket.
use yellow_vpn.Common.{
  ℕ, ◌-◌, ◌≡◌, refl, ◌⊎◌, inl, inr, Bool, true, false, Option, none, some, List, [], ◌∷◌, arith,
  ◌==◌, Bool-cases,
}
use yellow_vpn.Error.{Message}
use yellow_vpn.Helper.Socket.{
  SocketEffect, directory_prepared, remove_socket, after, socket_removed, bound, umask_set,
  mode_set, served, Accepted, accept_failed, no_credentials, peer, SocketAnswers, owner_uid, Run,
  is_allowed, accept_loop, lock_mode, lock_owner, bind_socket, in_directory, with_owner,
  ensure_root_dir, unix_main,
}

-- The umask of the process, and the mode of the socket that it has bound.
pub record Files : Type 0 where
  pub umask : ℕ
  pub socket : Option ℕ

-- A mode for all less the bits of the umask.
abbrev pub created_mode : ℕ → ℕ
created_mode umask = 0o777 - umask

abbrev pub with_mode : ℕ → Option ℕ → Option ℕ
with_mode mode none = none
with_mode mode (some old) = some mode

abbrev pub apply : SocketEffect → Files → Files
apply socket_removed f = record f { socket = none }
apply bound f = record f { socket = some (created_mode f.umask) }
apply (umask_set m) f = record f { umask = m }
apply (mode_set m) f = record f { socket = with_mode m f.socket }
apply _ f = f

abbrev pub files_after : List SocketEffect → Files → Files
files_after [] f = f
files_after (e ∷ es) f = files_after es (apply e f)

-- A socket that only its owner can read and write.
abbrev pub IsPrivate : Option ℕ → Type 0
IsPrivate none = Unit {0}
IsPrivate (some mode) = mode ≡ 0o600

-- A user who is served is the owner or root, whose number is 0.
abbrev pub IsServed : Option ℕ → SocketEffect → Type 0
IsServed none (served cred) = true ≡ false
IsServed (some owner) (served cred) = (cred ≡ owner) ⊎ (cred ≡ 0)
IsServed o _ = Unit {0}

abbrev pub Keeps : Option ℕ → List SocketEffect → Files → Type 0
Keeps o [] f = Unit {0}
Keeps o (e ∷ es) f = IsServed o e × IsPrivate (apply e f).socket × Keeps o es (apply e f)

-- Behind the end the socket is gone, unless `remove_file` failed.
abbrev pub IsGone : Option Message → Bool → Option ℕ → Type 0
IsGone none true socket = socket ≡ none
IsGone (some m) ended socket = Unit {0}
IsGone none false socket = Unit {0}

-- The socket is private as long as it is there, only the owner and root are served, and behind the
-- end the socket is gone.
abbrev pub IsGuarded : SocketAnswers → Option ℕ → Files → Run → Type 0
IsGuarded a o f (effects, ended) =
    Keeps o effects f × IsGone a.removal ended (files_after effects f).socket

never_bound : (removal : Option Message) (ended : Bool) → IsGone removal ended none
never_bound none true = refl
never_bound none false = tt
never_bound (some m) ended = tt

waiting : (removal : Option Message) (socket : Option ℕ) → IsGone removal false socket
waiting none socket = tt
waiting (some m) socket = tt

allowed_user : (owner cred : ℕ) → is_allowed owner cred ≡ true → (cred ≡ owner) ⊎ (cred ≡ 0)
allowed_user owner cred h = elim (Bool-cases (cred == owner)) [
  | inl same ↦ inl (ground arith)
  | inr other ↦ inr (ground arith)
]

-- The last step of a run, from a private socket.
removed-IsGuarded :
    (a : SocketAnswers) (owner umask : ℕ)
    → IsGuarded a
        (some owner)
        (record { umask = umask; socket = some 0o600 })
        (remove_socket a.removal ∷ [], true)
removed-IsGuarded a owner umask =
    elim a.removal
      as (λ m.
        Keeps (some owner) (remove_socket m ∷ []) (record { umask = umask; socket = some 0o600 })
        × IsGone m true
            (files_after (remove_socket m ∷ [])
              (record { umask = umask; socket = some 0o600 })).socket) [
                | none ↦ ((tt, tt, tt), refl)
                | some m ↦ ((tt, refl, tt), tt)
              ]

accept_loop-IsGuarded :
    (a : SocketAnswers) (owner umask : ℕ) (accepts : List Accepted)
    → IsGuarded a
        (some owner)
        (record { umask = umask; socket = some 0o600 })
        (accept_loop a owner accepts)
unfolding accept_loop
accept_loop-IsGuarded a owner umask [] = (tt, waiting a.removal _)
accept_loop-IsGuarded a owner umask (accept_failed ∷ more) = removed-IsGuarded a owner umask
accept_loop-IsGuarded a owner umask (no_credentials ∷ more) =
    accept_loop-IsGuarded a owner umask more
accept_loop-IsGuarded a owner umask (peer cred ∷ more) = elim (Bool-cases (is_allowed owner cred)) [
  | inl allowed ↦
      let (kept, gone) = removed-IsGuarded a owner umask in
      rw allowed ((allowed_user owner cred allowed, refl, kept), gone)
  | inr stranger ↦ rw stranger (accept_loop-IsGuarded a owner umask more)
]

lock_mode-IsGuarded :
    (a : SocketAnswers) (owner umask : ℕ) (m : Option Message)
    → IsGuarded a (some owner) (record { umask = umask; socket = some 0o600 }) (lock_mode a owner m)
lock_mode-IsGuarded a owner umask (some m) = removed-IsGuarded a owner umask
lock_mode-IsGuarded a owner umask none =
    let (kept, gone) = accept_loop-IsGuarded a owner umask a.accepts in ((tt, refl, kept), gone)

lock_owner-IsGuarded :
    (a : SocketAnswers) (owner umask : ℕ) (m : Option Message)
    → IsGuarded a
        (some owner)
        (record { umask = umask; socket = some 0o600 })
        (lock_owner a owner m)
lock_owner-IsGuarded a owner umask (some m) = removed-IsGuarded a owner umask
lock_owner-IsGuarded a owner umask none =
    let (kept, gone) = lock_mode-IsGuarded a owner umask a.set_mode in ((tt, refl, kept), gone)

bind_socket-IsGuarded :
    (a : SocketAnswers) (owner umask : ℕ) (m : Option Message)
    → IsGuarded a (some owner) (record { umask = umask; socket = none }) (bind_socket a owner m)
bind_socket-IsGuarded a owner umask (some m) = ((tt, tt, (tt, tt, tt)), never_bound a.removal true)
bind_socket-IsGuarded a owner umask none =
    let (kept, gone) = lock_owner-IsGuarded a owner a.umask a.chown in
    ((tt, tt, (tt, refl, (tt, refl, kept))), gone)

-- Without a socket the removal in front of the bind changes nothing, whatever its answer is.
unlinked :
    (a : SocketAnswers) (owner umask : ℕ) (r : Run) (m : Option Message)
    → IsGuarded a (some owner) (record { umask = umask; socket = none }) r
    → IsGuarded a
        (some owner)
        (record { umask = umask; socket = none })
        (after (directory_prepared ∷ remove_socket m ∷ []) r)
unlinked a owner umask r none (kept, gone) = ((tt, tt, (tt, tt, kept)), gone)
unlinked a owner umask r (some m) (kept, gone) = ((tt, tt, (tt, tt, kept)), gone)

in_directory-IsGuarded :
    (a : SocketAnswers) (owner umask : ℕ) (m : Option Message)
    → IsGuarded a (some owner) (record { umask = umask; socket = none }) (in_directory a owner m)
in_directory-IsGuarded a owner umask (some m) = (tt, never_bound a.removal true)
in_directory-IsGuarded a owner umask none =
    unlinked a owner umask _ a.stale_removal (bind_socket-IsGuarded a owner umask a.bind)

with_owner-IsGuarded :
    (a : SocketAnswers) (umask : ℕ) (o : Option ℕ)
    → IsGuarded a o (record { umask = umask; socket = none }) (with_owner a o)
with_owner-IsGuarded a umask none = (tt, never_bound a.removal true)
with_owner-IsGuarded a umask (some owner) =
    in_directory-IsGuarded a owner umask (ensure_root_dir a.directory)

-- Whatever the system answers and whoever connects: from the moment that the helper has bound its
-- socket only the socket's owner can read and write it, nobody is served but the user named in
-- the argument and the one with the number 0, and when the helper has ended the socket that it
-- bound is gone, unless the removal at the end failed.
pub unix_main-IsGuarded :
    (a : SocketAnswers) (umask : ℕ)
    → IsGuarded a (owner_uid a) (record { umask = umask; socket = none }) (unix_main a)
unfolding unix_main
unix_main-IsGuarded a umask = with_owner-IsGuarded a umask (owner_uid a)
