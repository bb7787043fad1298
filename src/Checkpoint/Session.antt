-- ===== src/Checkpoint/Session.antt =====
-- crates/vpn-engine/src/checkpoint/session.rs: the `client_hello` request, the session that a
-- `hello_reply` assigns, and the exchange of the two.
pub mod Routes
pub mod Reply
pub mod Redact
use mathlib.Core.Option
use mathlib.Core.List.{filter_map}
use yellow_vpn.Common.{
  ℕ, zero, suc, ◌+◌, ◌-◌, ◌*◌, ◌/◌, ◌%◌, ◌^◌, ◌≤◌, ◌<◌, String, ◌≡◌, refl, sym, ap, ◌∙◌, ◌≢◌, ◌↔◌,
  ◌⊎◌, inl, inr, Bool, true, false, not, ◌&&◌, ◌||◌, Option, none, some, List, [], ◌∷◌, ◌++◌, map,
  append-nil, append_assoc, arith, ltb, leb, ◌==◌, if◌then◌else◌, ltb→lt, ltb→le, lt→ltb, le→ltb,
  leb→le, ==_iff, ==_self, Bool-cases, Option-cases, length, get_or, take, drop, All, length-append,
  take-append-drop, length-take, length-drop, take-length_append, drop-length_append, take-append,
  drop-append, All-append, Bytes, IsByte, as_u8, as_u16, as_u32, be16, from_be16, be32, from_be32,
  from_be16-be16, from_be32-be32, as_bytes, from_utf8_lossy, IsScalar, from_utf8_lossy-as_bytes,
  codes,
}
use yellow_vpn.Common.Str.{
  text_eq, split_on, trim, trim_by, drop_empty, decimal, parse_nat, u32_max, u64_max,
}
use yellow_vpn.Error.{
  ensure, ◌>>◌, Text, Message, format, verbatim, caused, plain, VpnError, config, privilege, tun,
  tun_unavailable, routing, tls, protocol, auth_failed, server_disconnect, io, not_implemented,
  is_permanent, Result, ok, err, ◌>>=◌, Result-cases,
}
use yellow_vpn.Ipv4.{Ipv4Addr, ipv4, Subnet, addr_eq, to_u32, from_u32, parse_ipv4}
use yellow_vpn.Tunnel.Session.{SessionParams}
use yellow_vpn.Checkpoint.Ccc.{
  CccValue, empty, atom, node, Fields, nil, field, get, elements, as_atom, name, to_wire,
}
use yellow_vpn.Checkpoint.Framing.{
  SlimPacket, control, packet_data, encode_control, try_decode_slim,
}
use yellow_vpn.Checkpoint.Ranges.{range_to_subnets}
use Prim.Native.Nat.{min}

abbrev pub default_slim_mtu : ℕ
default_slim_mtu = 1400

abbrev pub hello_reply_max_bytes : ℕ
hello_reply_max_bytes = 64 * 1024

pub record CheckpointSession : Type 0 where
  pub address : Ipv4Addr
  pub prefix : ℕ
  pub dns : List Ipv4Addr
  pub search_domains : List Text
  pub routes : List Subnet
  pub keepalive_secs : ℕ
  pub auth_timeout_secs : ℕ

-- `u32::MAX << (32 - p)`, with the bits behind the word lost.
unfoldable pub prefix_to_netmask : ℕ → Ipv4Addr
prefix_to_netmask prefix =
    let p = min prefix 32 in from_u32 (if p == 0 then 0 else as_u32 (u32_max * 2 ^ (32 - p)))

unfoldable pub to_session_params : CheckpointSession → SessionParams
unfolding prefix_to_netmask
to_session_params s = record {
  address = s.address;
  netmask = some (prefix_to_netmask s.prefix);
  dns = s.dns;
  mtu = default_slim_mtu;
  keepalive = some (min s.keepalive_secs u32_max);
  dpd = none;
  disconnected_timeout = none;
}

pub record HelloOpts : Type 0 where
  pub client_version : ℕ
  pub protocol_version : ℕ
  pub protocol_minor_version : Option ℕ
  pub client_type : Text

abbrev pub default_hello_opts : HelloOpts
default_hello_opts = record {
  client_version = 2;
  protocol_version = 2;
  protocol_minor_version = none;
  client_type = codes "4";
}

abbrev pub minor_field : Option ℕ → Fields → Fields
minor_field none fs = fs
minor_field (some n) fs = field (codes "protocol_minor_version") (atom (decimal n)) fs

abbrev pub hello_tree : Text → Text → HelloOpts → CccValue
hello_tree cookie om_ip opts =
    let om : Fields =
      field (codes "ipaddr") (atom om_ip)
        (field (codes "keep_address") (atom (codes "false")) nil) in
    let optional : Fields = field (codes "client_type") (atom opts.client_type) nil in
    node (some (codes "client_hello")) (
      field (codes "client_version") (atom (decimal opts.client_version)) (
        field (codes "protocol_version") (atom (decimal opts.protocol_version)) (
          minor_field opts.protocol_minor_version (
            field (codes "OM") (node none om) (
              field (codes "optional") (node none optional)
                (field (codes "cookie") (atom cookie) nil))))))

unfoldable pub build_client_hello : Text → Text → HelloOpts → Text
unfolding decimal to_wire
build_client_hello cookie om_ip opts = to_wire (hello_tree cookie om_ip opts)

-- `get(key).and_then(as_atom)`, and the same below a value that may be missing.
unfoldable pub get_atom : Text → CccValue → Option Text
unfolding get as_atom Option.bind
get_atom key v = Option.bind (get v key) as_atom

unfoldable pub atom_at : Text → Text → CccValue → Option Text
unfolding get get_atom Option.bind
atom_at outer key v = Option.bind (get v outer) (get_atom key)

abbrev pub refused : Option Text → Option Text → Message
refused (some c) (some m) =
    caused (caused (plain "gateway refused the session, code") (verbatim c)) (verbatim m)
refused (some c) none = caused (plain "gateway refused the session, code") (verbatim c)
refused none (some m) = caused (plain "gateway refused the session") (verbatim m)
refused none none = plain "gateway refused the session"

abbrev pub unquote : Option Text → Option Text
unquote none = none
unquote (some s) = some (trim_by (λ c. c == b'"') s)

-- The match on the name of the document.
abbrev pub check_name : Option Text → CccValue → Result (Unit {0})
check_name none v = err (protocol (plain "unexpected hello reply object"))
check_name (some n) v =
    if text_eq n (codes "disconnect")
    then err (
        server_disconnect
          (refused (get_atom (codes "code") v) (unquote (get_atom (codes "message") v))))
    else if text_eq n (codes "hello_reply")
    then ok tt
    else err (protocol (plain "unexpected hello reply object"))

unfoldable pub count_ones : ℕ → ℕ → ℕ
count_ones zero n = 0
count_ones (suc bits) n = n % 2 + count_ones bits (n / 2)

abbrev pub or_else : {A : Type 0} → Option A → A → A
or_else none d = d
or_else (some a) d = a

abbrev pub prefix_of : Option Ipv4Addr → ℕ
prefix_of none = 32
prefix_of (some mask) = count_ones 32 (to_u32 mask)

abbrev pub addresses : Option CccValue → List Ipv4Addr
addresses none = []
addresses (some v) = filter_map parse_ipv4 (filter_map as_atom (elements v))

abbrev pub domains : Option Text → List Text
domains none = []
domains (some s) =
    drop_empty (map trim (split_on (λ c. c == b',' || c == b';') (trim_by (λ c. c == b'"') s)))

abbrev pub sentinel : Ipv4Addr
sentinel = ipv4 0 0 0 1

-- The bounds of an element of `range`, unless one is missing or the sentinel stands first.
abbrev pub range_bounds : Option Ipv4Addr → Option Ipv4Addr → Option (Ipv4Addr × Ipv4Addr)
range_bounds (some from) (some to) = if addr_eq from sentinel then none else some (from, to)
range_bounds _ _ = none

unfoldable pub range_of : CccValue → Option (Ipv4Addr × Ipv4Addr)
unfolding get_atom parse_ipv4 addr_eq Option.bind
range_of elem =
    range_bounds (Option.bind (get_atom (codes "from") elem) parse_ipv4)
      (Option.bind (get_atom (codes "to") elem) parse_ipv4)

abbrev pub extend_routes : Option (Ipv4Addr × Ipv4Addr) → List Subnet → List Subnet
extend_routes none routes = routes
extend_routes (some (from, to)) routes = range_to_subnets from to ++ routes

unfoldable pub routes_of : List CccValue → List Subnet
unfolding range_of range_to_subnets
routes_of [] = []
routes_of (elem ∷ elems) = extend_routes (range_of elem) (routes_of elems)

abbrev pub route_list : Option CccValue → List Subnet
route_list none = []
route_list (some v) = routes_of (elements v)

abbrev pub minus_sixty : Option ℕ → ℕ
minus_sixty none = 0
minus_sixty (some a) = a - 60

abbrev pub session_of : CccValue → Ipv4Addr → CheckpointSession
session_of tree address = record {
  address = address;
  prefix = prefix_of (Option.bind (atom_at (codes "optional") (codes "subnet") tree) parse_ipv4);
  dns = addresses (Option.bind (get tree (codes "OM")) (λ om. get om (codes "dns_servers")));
  search_domains = domains (atom_at (codes "OM") (codes "dns_suffix") tree);
  routes = route_list (get tree (codes "range"));
  keepalive_secs =
      or_else
        (Option.bind (atom_at (codes "timeouts") (codes "keepalive") tree) (parse_nat u64_max)) 20;
  auth_timeout_secs =
      minus_sixty (
        Option.bind (atom_at (codes "timeouts") (codes "authentication") tree) (parse_nat u64_max));
}

abbrev pub with_address : CccValue → Option Ipv4Addr → Result CheckpointSession
with_address tree none = err (protocol (plain "missing OM.ipaddr"))
with_address tree (some a) = ok (session_of tree a)

unfoldable pub parse_hello_reply : CccValue → Result CheckpointSession
unfolding get name get_atom atom_at text_eq trim_by split_on trim count_ones parse_ipv4 parse_nat
    routes_of elements Option.bind filter_map
parse_hello_reply tree = do
  check_name (name tree) tree
  with_address tree (Option.bind (atom_at (codes "OM") (codes "ipaddr") tree) parse_ipv4)

-- A read from the stream: its bytes, none at the end, an error, or the timeout.
pub data HelloRead : Type 0 where
  arrived : Bytes → HelloRead
  broken : Message → HelloRead
  silent : HelloRead

-- What a round of the inner match finds in the buffer: an answer, or the bytes that are left.
pub data Found : Type 0 where
  answer : Result CheckpointSession → Found
  pending : Bytes → Found

abbrev pub on_slim : (Bytes → Found) → Result (Option SlimPacket) × Bytes → Found
on_slim more (err e, rest) = answer (err e)
on_slim more (ok (some (control tree)), rest) = answer (parse_hello_reply tree)
on_slim more (ok (some (packet_data p)), rest) = more rest
on_slim more (ok none, rest) = pending rest

-- The frames that are buffered: data frames are passed over.
unfoldable pub drain_hello : ℕ → Bytes → Found
unfolding try_decode_slim parse_hello_reply
drain_hello zero buf = pending buf
drain_hello (suc frames) buf = on_slim (drain_hello frames) (try_decode_slim buf)

-- A frame takes eight bytes at least, so the length of the buffer bounds its frames.
abbrev pub search_hello : Bytes → Found
search_hello buf = drain_hello (suc (length buf)) buf

abbrev pub after_search :
    (Bytes → Option (Result CheckpointSession)) → Found → Option (Result CheckpointSession)
after_search more (answer r) = some r
after_search more (pending buf) =
    if ltb hello_reply_max_bytes (length buf)
    then some (err (protocol (plain "hello_reply exceeded size guard")))
    else more buf

abbrev pub on_hello_read :
    (Bytes → Option (Result CheckpointSession))
    → HelloRead
    → Bytes
    → Option (Result CheckpointSession)
on_hello_read more (arrived []) buf =
    some (err (protocol (plain "connection closed before hello_reply")))
on_hello_read more (arrived (b ∷ bs)) buf = more (buf ++ (b ∷ bs))
on_hello_read more (broken m) buf = some (err (io m))
on_hello_read more silent buf =
    some (err (protocol (format "no hello_reply within 20s ({} bytes buffered)" (length buf ∷ []))))

-- The loop, on what the reads answer; `none` while it waits for another.
unfoldable pub await_hello : List HelloRead → Bytes → Option (Result CheckpointSession)
unfolding drain_hello
await_hello [] buf = after_search (λ buf'. none) (search_hello buf)
await_hello (r ∷ reads) buf =
    after_search (on_hello_read (λ buf'. await_hello reads buf') r) (search_hello buf)

-- The frame of the request, and the answer; `written` is the error of its write.
unfoldable pub establish_session :
    Text → HelloOpts → Option Message → List HelloRead → Bytes × Option (Result CheckpointSession)
unfolding build_client_hello encode_control await_hello
establish_session cookie opts (some m) reads =
    (encode_control (build_client_hello cookie (codes "0.0.0.0") opts), some (err (io m)))
establish_session cookie opts none reads =
    (encode_control (build_client_hello cookie (codes "0.0.0.0") opts), await_hello reads [])
