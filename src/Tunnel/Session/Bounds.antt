-- ===== src/Tunnel/Session/Bounds.antt =====
-- crates/vpn-engine/src/tunnel.rs: how much of the CONNECT response is read.
use yellow_vpn.Common.{
  ℕ, ◌+◌, ◌≤◌, ◌<◌, inl, inr, Option, none, some, List, [], ◌∷◌, ◌++◌, arith, ltb, ltb→le,
  Bool-cases, length, length-append, Bytes,
}
use yellow_vpn.Error.{Text, Message, Result}
use yellow_vpn.Common.Str.{contains}
use yellow_vpn.Tunnel.Session.{
  StreamRead, read, failed, SessionParams, connect_response_max, header_terminator, on_bytes,
  read_connect_response, cstp_connect,
}

-- The bytes that the reads bring.
abbrev pub total : List StreamRead → ℕ
total [] = 0
total (failed m ∷ reads) = total reads
total (read bs ∷ reads) = length bs + total reads

abbrev pub IsSome : {A : Type 0} → Option A → Type 0
IsSome none = ⊥
IsSome (some a) = Unit

on_bytes-IsSome :
    (buf : Bytes) (more : Bytes → Option (Result SessionParams))
    → (length buf ≤ connect_response_max → IsSome (more buf))
    → IsSome (on_bytes buf more)
on_bytes-IsSome buf more k = elim (Bool-cases (contains header_terminator buf)) [
  | inl found ↦ rw found tt
  | inr open_ ↦ elim (Bool-cases (ltb connect_response_max (length buf))) [
    | inl big ↦ rw (open_, big) tt
    | inr small ↦ rw (open_, small) (k (ltb→le connect_response_max (length buf) small))
  ]
]

reads-IsSome :
    (reads : List StreamRead) (buf : Bytes)
    → length buf ≤ connect_response_max
    → connect_response_max < length buf + total reads
    → IsSome (read_connect_response reads buf)
unfolding read_connect_response
reads-IsSome [] buf small h = omega arith
reads-IsSome (failed m ∷ reads) buf small h = tt
reads-IsSome (read [] ∷ reads) buf small h = tt
reads-IsSome (read (b ∷ bs) ∷ reads) buf small h =
    on_bytes-IsSome (buf ++ (b ∷ bs)) (λ buf'. read_connect_response reads buf')
      (λ fits.
        reads-IsSome reads (buf ++ (b ∷ bs)) fits (omega (arith, length-append buf (b ∷ bs))))

-- However a gateway cuts what it sends, and whether or not it ever ends its headers, the tunnel
-- upgrade has answered once more than 64 KiB have been read.
pub cstp_connect-IsSome :
    (host cookie : Text) (written : Option Message) (reads : List StreamRead)
    → connect_response_max < total reads
    → IsSome (cstp_connect host cookie written reads).1
unfolding cstp_connect
cstp_connect-IsSome host cookie (some m) reads h = tt
cstp_connect-IsSome host cookie none reads h = reads-IsSome reads [] (omega arith) (omega arith)
