-- ===== src/Routing.antt =====
-- crates/vpn-engine/src/routing.rs: the guard that installs the VPN's routes and removes them. The
-- handle of the crate net-route, and the routing table behind it, are a parameter.
pub mod Restore
use yellow_vpn.Ipv4.{Ipv4Addr, ipv4}
use yellow_vpn.Common.{
  ℕ, zero, suc, ◌+◌, ◌-◌, ◌*◌, ◌/◌, ◌%◌, ◌^◌, ◌≤◌, ◌<◌, String, ◌≡◌, refl, sym, ap, ◌∙◌, ◌≢◌, ◌↔◌,
  ◌⊎◌, inl, inr, Bool, true, false, not, ◌&&◌, ◌||◌, Option, none, some, List, [], ◌∷◌, ◌++◌, map,
  append-nil, append_assoc, arith, ltb, leb, ◌==◌, if◌then◌else◌, ltb→lt, ltb→le, lt→ltb, le→ltb,
  leb→le, ==_iff, ==_self, Bool-cases, Option-cases, length, get_or, take, drop, All, length-append,
  take-append-drop, length-take, length-drop, take-length_append, drop-length_append, take-append,
  drop-append, All-append, Bytes, IsByte, as_u8, as_u16, as_u32, be16, from_be16, be32, from_be32,
  from_be16-be16, from_be32-be32, as_bytes, from_utf8_lossy, IsScalar, from_utf8_lossy-as_bytes,
  codes,
}
use yellow_vpn.Error.{
  ensure, ◌>>◌, Text, Message, format, verbatim, caused, plain, VpnError, config, privilege, tun,
  tun_unavailable, routing, tls, protocol, auth_failed, server_disconnect, io, not_implemented,
  is_permanent, Result, ok, err, ◌>>=◌, Result-cases,
}

pub record Route : Type 0 where
  pub destination : Ipv4Addr
  pub prefix : ℕ
  pub ifindex : ℕ

-- `add` and `delete` return the error, if there is one, and the table that they leave.
pub record Handle : Type 1 where
  pub Table : Type 0
  pub add : Route → Table → Option Message × Table
  pub delete : Route → Table → Option Message × Table

unfoldable pub vpn_routes : List (Ipv4Addr × ℕ)
vpn_routes = (ipv4 10 0 0 0, 8) ∷ (ipv4 172 16 0 0, 12) ∷ []

pub record RoutingGuard : Type 0 where
  pub routes : List Route

abbrev pub route_of : ℕ → Ipv4Addr × ℕ → Route
route_of ifindex (dest, prefix) = record { destination = dest; prefix = prefix; ifindex = ifindex }

abbrev pub failed_to_add : Route → Ipv4Addr → Message
failed_to_add r (ipv4 a b c d) =
    format "failed to add route {}.{}.{}.{}/{} via ifindex {}"
      (a ∷ b ∷ c ∷ d ∷ r.prefix ∷ r.ifindex ∷ [])

module _ (os : Handle) where
  open os use {Table, add, delete}

  -- Best effort: an error of `delete` is dropped.
  unfoldable pub delete_all : List Route → Table → Table
  delete_all [] t = t
  delete_all (r ∷ rs) t = delete_all rs (delete r t).1

  abbrev pub after_add :
      (Table → Result RoutingGuard × Table)
      → Route
      → List Route
      → Option Message × Table
      → Result RoutingGuard × Table
  after_add more r added (none, t) = more t
  after_add more r added (some e, t) =
      (err (routing (caused (failed_to_add r r.destination) e)), delete_all added t)

  -- The loop of `install_routes`; `added` are the routes added so far, in order.
  unfoldable pub install_loop :
      ℕ → List (Ipv4Addr × ℕ) → List Route → Table → Result RoutingGuard × Table
  install_loop ifindex [] added t = (ok (record { routes = added }), t)
  install_loop ifindex (d ∷ ds) added t =
      let r = route_of ifindex d in
      after_add (install_loop ifindex ds (added ++ (r ∷ []))) r added (add r t)

  -- `opened` is what `Handle::new` returned.
  unfoldable pub install_routes :
      Option Message → ℕ → List (Ipv4Addr × ℕ) → Table → Result RoutingGuard × Table
  unfolding install_loop
  install_routes none ifindex routes t = install_loop ifindex routes [] t
  install_routes (some e) ifindex routes t =
      (err (routing (caused (plain "failed to open routing handle") e)), t)

  unfoldable pub install : Option Message → ℕ → Table → Result RoutingGuard × Table
  unfolding install_routes vpn_routes
  install opened ifindex t = install_routes opened ifindex vpn_routes t

  -- The routes are taken out of the guard, then each is deleted.
  unfoldable pub remove_all : RoutingGuard → Table → RoutingGuard × Table
  unfolding delete_all
  remove_all g t = (record { routes = [] }, delete_all g.routes t)
