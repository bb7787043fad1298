-- ===== src/Fortigate/Negotiate/Session.antt =====
-- crates/vpn-engine/src/fortigate/ppp.rs: the session that `negotiate` answers.
use yellow_vpn.Ipv4.{Ipv4Addr, ipv4, is_unspecified, addr_eq, holds_addr}
use yellow_vpn.Error.{VpnError, Result, ok, err, ◌>>=◌}
use yellow_vpn.Common.{
  ℕ, ◌+◌, ◌≡◌, refl, inl, inr, Bool, true, false, ◌||◌, Option, none, some, List, [], ◌∷◌, ◌++◌,
  arith, ◌==◌, if◌then◌else◌, Bool-cases, All, All-append, Bytes,
}
use yellow_vpn.Fortigate.Ppp.{CpPacket, opt_ipv4, ppp_ipcp}
use yellow_vpn.Fortigate.PppIo.{Frame, recv}
use mathlib.Core.Path.{subst}
use yellow_vpn.Fortigate.Negotiate.{
  Round, Link, Progress, finished, stopped, waiting, turn, too_late, negotiation, send_request,
}
use yellow_vpn.Fortigate.Negotiate.Lcp
use yellow_vpn.Fortigate.Negotiate.Lcp.{Lcp, lcp_phase}
use yellow_vpn.Fortigate.Negotiate.Ipcp.{
  Harvest, harvest_addr, harvest_dns, harvest_option, harvest_ipcp, Ipcp, with_link, request,
  on_conf_req, on_conf_nak, on_conf_rej, on_lcp_packet, on_packet, on_frame, on_nothing,
  on_received, terminated, round, ipcp_phase, PppSession, conclude, after_ipcp, run_ipcp, after_lcp,
  run_lcp, start_ipcp, start_lcp, negotiate,
}

abbrev IsSpecified : Option Ipv4Addr → Type 0
IsSpecified none = Unit
IsSpecified (some a) = is_unspecified a ≡ false

-- No address stands twice in the list.
abbrev pub Distinct : List Ipv4Addr → Type 0
Distinct [] = Unit
Distinct (a ∷ xs) = (holds_addr xs a ≡ false) × Distinct xs

record IsGood (h : Harvest) : Type 0 where
  address_specified : IsSpecified h.address
  dns_specified : All (λ a. is_unspecified a ≡ false) h.dns
  dns_distinct : Distinct h.dns

addr_eq_comm : (a b : Ipv4Addr) → addr_eq a b ≡ addr_eq b a
unfolding addr_eq
addr_eq_comm (ipv4 a b c d) (ipv4 a' b' c' d') = ground arith

holds_addr-append :
    (xs : List Ipv4Addr) (a b : Ipv4Addr)
    → holds_addr xs b ≡ false
    → addr_eq a b ≡ false
    → holds_addr (xs ++ (a ∷ [])) b ≡ false
unfolding holds_addr
holds_addr-append [] a b h e = ground arith
holds_addr-append (x ∷ xs) a b h e = ground (arith, holds_addr-append xs a b)

Distinct-append :
    (xs : List Ipv4Addr) (a : Ipv4Addr)
    → Distinct xs
    → holds_addr xs a ≡ false
    → Distinct (xs ++ (a ∷ []))
unfolding holds_addr
Distinct-append [] a d h = (refl, tt)
Distinct-append (x ∷ xs) a d h = (
  holds_addr-append xs a x d.0 (ground (arith, addr_eq_comm a x)),
  Distinct-append xs a d.1 (ground arith),
)

harvest_option-IsGood : (t : ℕ) (v : Bytes) (h : Harvest) → IsGood h → IsGood (harvest_option t v h)
harvest_option-IsGood t v h g = go (opt_ipv4 v)
  where
    address : (o : Option Ipv4Addr) → IsGood (harvest_addr o h)
    address none = g
    address (some a) = ground arith

    server : (o : Option Ipv4Addr) → IsGood (harvest_dns o h)
    server none = g
    server (some a) = elim (Bool-cases (is_unspecified a)) [
      | inl yes_ ↦ rw yes_ g
      | inr specified ↦ elim (Bool-cases (holds_addr h.dns a)) [
        | inl known ↦ rw (specified, known) g
        | inr new ↦
            rw (specified, new)
              (record {
                address_specified = g.address_specified;
                dns_specified =
                    All-append (λ b. is_unspecified b ≡ false) h.dns (a ∷ []) g.dns_specified
                      (specified, tt);
                dns_distinct = Distinct-append h.dns a g.dns_distinct new;
              })
      ]
    ]

    go :
        (o : Option Ipv4Addr)
        → IsGood (
            if t == 3
            then harvest_addr o h
            else if t == 129 || t == 131
            then harvest_dns o h
            else h)
    go o = elim (Bool-cases (t == 3)) [
      | inl e ↦ rw e (address o)
      | inr n ↦ elim (Bool-cases (t == 129 || t == 131)) [
        | inl e ↦ rw (n, e) (server o)
        | inr m ↦ rw (n, m) g
      ]
    ]

harvest_ipcp-IsGood :
    (opts : List (ℕ × Bytes)) (h : Harvest) → IsGood h → IsGood (harvest_ipcp opts h)
unfolding harvest_ipcp
harvest_ipcp-IsGood [] h g = g
harvest_ipcp-IsGood ((t, v) ∷ opts) h g =
    harvest_ipcp-IsGood opts (harvest_option t v h) (harvest_option-IsGood t v h g)

-- A result whose session, if any, has a good harvest.
unfoldable Keeps : Result Ipcp → Type 0
Keeps (ok s) = IsGood s.harvest
Keeps (err e) = Unit

keep : (s : Ipcp) → IsGood s.harvest → Keeps (ok s)
unfolding Keeps
keep s g = g

failed-Keeps : (e : VpnError) → Keeps (err e)
unfolding Keeps
failed-Keeps e = tt

with_link-Keeps : (s : Ipcp) (m : Result Link) → IsGood s.harvest → Keeps (with_link s m)
unfolding Keeps
with_link-Keeps s (ok l) g = g
with_link-Keeps s (err e) g = tt

if-Keeps : (b : Bool) (x y : Result Ipcp) → Keeps x → Keeps y → Keeps (if b then x else y)
if-Keeps true x y kx ky = kx
if-Keeps false x y kx ky = ky

terminated-Keeps : (m : Result Ipcp) → Keeps (terminated m)
unfolding Keeps
terminated-Keeps (ok s) = tt
terminated-Keeps (err e) = tt

request-Keeps : (r : Round) (s : Ipcp) → IsGood s.harvest → Keeps (request r s)
unfolding request
request-Keeps r s g = with_link-Keeps s (send_request r ppp_ipcp s.id s.opts s.link) g

on_lcp_packet-Keeps :
    (magic : ℕ) (r : Round) (p : CpPacket) (s : Ipcp)
    → IsGood s.harvest
    → Keeps (on_lcp_packet magic r p s)
unfolding on_lcp_packet
on_lcp_packet-Keeps magic r p s g = search (if-Keeps, with_link-Keeps, terminated-Keeps, keep)

on_packet-Keeps : (r : Round) (p : CpPacket) (s : Ipcp) → IsGood s.harvest → Keeps (on_packet r p s)
unfolding on_packet on_conf_req on_conf_nak on_conf_rej
on_packet-Keeps r p s g =
    search (if-Keeps, with_link-Keeps, request-Keeps, keep, harvest_ipcp-IsGood)

parsed-Keeps :
    (m : Result CpPacket) (f : CpPacket → Result Ipcp)
    → ((p : CpPacket) → Keeps (f p))
    → Keeps (m >>= f)
unfolding Keeps
parsed-Keeps (ok p) f k = k p
parsed-Keeps (err e) f k = tt

on_frame-Keeps :
    (magic : ℕ) (r : Round) (f : Frame) (s : Ipcp) → IsGood s.harvest → Keeps (on_frame magic r f s)
unfolding on_frame
on_frame-Keeps magic r (proto, payload) s g =
    search (if-Keeps, parsed-Keeps, on_lcp_packet-Keeps, on_packet-Keeps, keep)

on_received-Keeps :
    (magic : ℕ) (r : Round) (m : Result (Option Frame)) (s : Ipcp)
    → IsGood s.harvest
    → Keeps (on_received magic r m s)
unfolding on_nothing
on_received-Keeps magic r (err e) s g = failed-Keeps e
on_received-Keeps magic r (ok none) s g = search (if-Keeps, request-Keeps, keep)
on_received-Keeps magic r (ok (some f)) s g = on_frame-Keeps magic r f s g

round-Keeps : (magic : ℕ) (r : Round) (s : Ipcp) → IsGood s.harvest → Keeps (round magic r s)
unfolding round
round-Keeps magic r s g = on_received-Keeps magic r (recv r.reads s.link.reader).0 _ g

-- What a finished phase leaves is good.
abbrev Leaves : Progress Ipcp → Type 0
Leaves (finished s rounds) = IsGood s.harvest
Leaves (stopped e) = Unit
Leaves (waiting s) = Unit

turn-Leaves :
    (b late : Bool) (s : Ipcp) (e : VpnError) (rounds : List Round) (m : Result Ipcp)
    (more : Ipcp → Progress Ipcp)
    → IsGood s.harvest
    → Keeps m
    → ((s' : Ipcp) → IsGood s'.harvest → Leaves (more s'))
    → Leaves (turn b late s e rounds m more)
unfolding Keeps
turn-Leaves true late s e rounds m more g k next = g
turn-Leaves false true s e rounds m more g k next = tt
turn-Leaves false false s e rounds (ok s') more g k next = next s' k
turn-Leaves false false s e rounds (err e') more g k next = tt

negotiation-Leaves :
    (done : Ipcp → Bool) (magic : ℕ) (e : VpnError) (n : ℕ) (rounds : List Round) (s : Ipcp)
    → IsGood s.harvest
    → Leaves (negotiation done (round magic) e n rounds s)
unfolding negotiation
negotiation-Leaves done magic e n [] s g = go (done s)
  where
    go : (b : Bool) → Leaves (if b then finished s [] else waiting s)
    go true = g
    go false = tt
negotiation-Leaves done magic e n (r ∷ rs) s g =
    turn-Leaves (done s) (too_late n r) s e (r ∷ rs) (round magic r s) _ g (round-Keeps magic r s g)
      (λ s' g'. negotiation-Leaves done magic e (n + 1) rs s' g')

-- What a session that is handed on promises.
abbrev pub IsUsable : PppSession → Type 0
IsUsable session =
    (is_unspecified session.address ≡ false)
    × (All (λ a. is_unspecified a ≡ false) session.dns × Distinct session.dns)

abbrev Usable : Option (Result (PppSession × Bytes)) → Type 0
Usable none = Unit
Usable (some (err e)) = Unit
Usable (some (ok (session, bytes))) = IsUsable session

after_ipcp-Usable : (magic mru : ℕ) (p : Progress Ipcp) → Leaves p → Usable (after_ipcp magic mru p)
after_ipcp-Usable magic mru (stopped e) k = tt
after_ipcp-Usable magic mru (waiting s) k = tt
after_ipcp-Usable magic mru (finished s rounds) g = go s.harvest.address g.address_specified
  where
    go : (o : Option Ipv4Addr) → IsSpecified o → Usable (some (conclude magic mru s o))
    go none h = tt
    go (some a) h = (h, (g.dns_specified, g.dns_distinct))

run_ipcp-Usable :
    (magic : ℕ) (r : Round) (mru : ℕ) (rounds : List Round) (m : Result Ipcp)
    → Keeps m
    → Usable (run_ipcp magic r mru rounds m)
unfolding ipcp_phase Keeps
run_ipcp-Usable magic r mru rounds (err e) k = tt
run_ipcp-Usable magic r mru rounds (ok s) k =
    after_ipcp-Usable magic mru (ipcp_phase magic rounds s)
      (negotiation-Leaves _ magic _ 0 rounds s k)

after_lcp-Usable : (magic : ℕ) (r : Round) (p : Progress Lcp) → Usable (after_lcp magic r p)
after_lcp-Usable magic r (stopped e) = tt
after_lcp-Usable magic r (waiting s) = tt
after_lcp-Usable magic r (finished s rounds) =
    run_ipcp-Usable magic r s.mru rounds (request r (start_ipcp s.link)) (
      request-Keeps r (start_ipcp s.link)
        (record { address_specified = tt; dns_specified = tt; dns_distinct = tt }))

run_lcp-Usable :
    (magic : ℕ) (r : Round) (rounds : List Round) (m : Result Lcp)
    → Usable (run_lcp magic r rounds m)
run_lcp-Usable magic r rounds (err e) = tt
run_lcp-Usable magic r rounds (ok s) = after_lcp-Usable magic r (lcp_phase magic rounds s)

-- Whatever the gateway sends, a session that `negotiate` answers has an address other than
-- 0.0.0.0, none of its DNS servers is 0.0.0.0, and no DNS server is listed twice.
pub negotiate-IsUsable :
    (magic : ℕ) (prime : Bytes) (r₁ r₂ : Round) (rounds : List Round) (session : PppSession)
    (bytes : Bytes)
    → negotiate magic prime r₁ r₂ rounds ≡ some (ok (session, bytes))
    → IsUsable session
unfolding negotiate
negotiate-IsUsable magic prime r₁ r₂ rounds session bytes e =
    subst Usable e (run_lcp-Usable magic r₂ rounds (Lcp.request r₁ (start_lcp magic prime)))
