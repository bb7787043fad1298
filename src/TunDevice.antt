-- ===== src/TunDevice.antt =====
-- crates/vpn-engine/src/tun_device.rs: the TUN interface. What the crate `tun` and the system answer
-- is an argument, and what the code asks of them is a list of effects.
pub mod Wide
use yellow_vpn.Common.{
  ℕ, zero, suc, ◌+◌, ◌-◌, ◌*◌, ◌/◌, ◌%◌, ◌^◌, ◌≤◌, ◌<◌, String, ◌≡◌, refl, sym, ap, ◌∙◌, ◌≢◌, ◌↔◌,
  ◌⊎◌, inl, inr, Bool, true, false, not, ◌&&◌, ◌||◌, Option, none, some, List, [], ◌∷◌, ◌++◌, map,
  append-nil, append_assoc, arith, ltb, leb, ◌==◌, if◌then◌else◌, ltb→lt, ltb→le, lt→ltb, le→ltb,
  leb→le, ==_iff, ==_self, Bool-cases, Option-cases, length, get_or, take, drop, All, length-append,
  take-append-drop, length-take, length-drop, take-length_append, drop-length_append, take-append,
  drop-append, All-append, Bytes, IsByte, as_u8, as_u16, as_u32, be16, from_be16, be32, from_be32,
  from_be16-be16, from_be32-be32, as_bytes, from_utf8_lossy, IsScalar, from_utf8_lossy-as_bytes,
  codes,
}
use yellow_vpn.Error.{
  ensure, ◌>>◌, Text, Message, format, verbatim, caused, plain, VpnError, config, privilege, tun,
  tun_unavailable, routing, tls, protocol, auth_failed, server_disconnect, io, not_implemented,
  is_permanent, Result, ok, err, ◌>>=◌, Result-cases,
}
use yellow_vpn.Ipv4.{Ipv4Addr, ipv4}
use yellow_vpn.Tunnel.Session.{SessionParams}

abbrev pub host_netmask : Ipv4Addr
host_netmask = ipv4 255 255 255 255

-- `char::encode_utf16`.
unfoldable pub utf16_units : ℕ → List ℕ
utf16_units c =
    if ltb c 0x10000
    then c ∷ []
    else (0xD800 + (c - 0x10000) / 0x400) ∷ (0xDC00 + (c - 0x10000) % 0x400) ∷ []

unfoldable pub encode_wide_nul : Text → List ℕ
unfolding utf16_units
encode_wide_nul [] = 0 ∷ []
encode_wide_nul (c ∷ cs) = utf16_units c ++ encode_wide_nul cs

abbrev pub config_mtu : SessionParams → ℕ
config_mtu params = params.mtu

-- `tun::Configuration`: an interface of its own, or a descriptor that is there.
pub data Configuration : Type 0 where
  interface : (address netmask : Ipv4Addr) (mtu : ℕ) → Configuration
  raw_fd : (fd mtu : ℕ) → Configuration

pub data TunEffect : Type 0 where
  device_created : Configuration → TunEffect
  duplicated : (fd dup : ℕ) → TunEffect
  closed : ℕ → TunEffect

-- The device by its name; its descriptor is closed when it is dropped.
abbrev pub Opened : Type 0
Opened = List TunEffect × Result Text

abbrev pub named : Configuration → Message ⊎ Text → Opened
named c (inl m) =
    (device_created c ∷ [], err (tun (caused (plain "failed to read TUN interface name") m)))
named c (inr name) = (device_created c ∷ [], ok name)

-- `create` says how `create_as_async` fails, `name` is what `tun_name` answers.
unfoldable pub open_tun : SessionParams → (create : Option Message) (name : Message ⊎ Text) → Opened
open_tun params (some m) name = ([], err (tun (caused (plain "failed to create TUN device") m)))
open_tun params none name = named (interface params.address host_netmask (config_mtu params)) name

abbrev pub wrapped : SessionParams → ℕ → ℕ → Option Message → Opened
wrapped params fd dup (some m) = (
  duplicated fd dup ∷ closed dup ∷ [],
  err (tun (caused (plain "failed to wrap android TUN fd") m)),
)
wrapped params fd dup none = (
  duplicated fd dup ∷ device_created (raw_fd dup (config_mtu params)) ∷ [],
  ok (codes "tun-android"),
)

-- `dup` answers the new descriptor, or the error of the system.
unfoldable pub open_tun_from_fd :
    ℕ → SessionParams → (dup : Message ⊎ ℕ) (create : Option Message) → Opened
open_tun_from_fd fd params (inl m) create =
    ([], err (tun (caused (plain "dup() of VpnService TUN fd failed") m)))
open_tun_from_fd fd params (inr dup) create = wrapped params fd dup create

-- Unix: what `if_nametoindex` answers for the name.
unfoldable pub if_index : (if_nametoindex : Text → Message ⊎ ℕ) → Text → Result ℕ
if_index if_nametoindex name = elim (if_nametoindex name) [
  | inl m ↦
      err (
        routing (caused (caused (plain "failed to resolve interface index for") (verbatim name)) m))
  | inr index ↦ ok index
]

abbrev pub luid_index : Text → ℕ × ℕ → Result ℕ
luid_index name (code, index) =
    if code == 0
    then ok index
    else err (
        routing (
          caused (format "ConvertInterfaceLuidToIndex failed (code {})" (code ∷ []))
            (verbatim name)))

-- Windows: both conversions answer a code, which is zero where they succeed, and their result.
unfoldable pub if_index_windows :
    (to_luid : List ℕ → ℕ × ℕ) (to_index : ℕ → ℕ × ℕ) → Text → Result ℕ
unfolding encode_wide_nul
if_index_windows to_luid to_index name =
    let (code, luid) = to_luid (encode_wide_nul name) in
    if code == 0
    then luid_index name (to_index luid)
    else err (
        routing (
          caused (format "ConvertInterfaceAliasToLuid failed (code {})" (code ∷ []))
            (verbatim name)))
