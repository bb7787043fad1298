-- ===== src/Fortigate/Negotiate/Ipcp.antt =====
-- crates/vpn-engine/src/fortigate/ppp.rs: the IPCP phase of `negotiate`, and `negotiate` itself.
use yellow_vpn.Common.{
  ℕ, ◌-◌, Bool, true, false, not, ◌&&◌, ◌||◌, Option, none, some, List, [], ◌∷◌, ◌++◌, leb, ◌==◌,
  if◌then◌else◌, Bytes,
}
use yellow_vpn.Ipv4.{Ipv4Addr, is_unspecified, holds_addr}
use yellow_vpn.Error.{plain, protocol, Result, ok, err, ◌>>=◌}
use yellow_vpn.Fortigate.Ppp.{
  CpPacket, opt_ipv4, ppp_lcp, ppp_ipcp, ppp_ipv4, code_conf_req, code_conf_ack, code_conf_nak,
  code_conf_rej, code_term_req, code_term_ack, code_echo_req, parse_cp, build_cp, parse_options,
  echo_reply,
}
use yellow_vpn.Fortigate.PppIo.{Frame, recv}
use yellow_vpn.Fortigate.Negotiate.{
  Round, Link, restart_interval, write, send, send_request, stage_early, has_option, set_option,
  retain, next_id, Progress, finished, stopped, waiting, negotiation,
}
use yellow_vpn.Fortigate.Negotiate.Lcp
use yellow_vpn.Fortigate.Negotiate.Lcp.{Lcp, default_mru, initial_opts, lcp_phase}

abbrev pub ipcp_opt_addr : ℕ
ipcp_opt_addr = 3

abbrev pub ipcp_opt_dns1 : ℕ
ipcp_opt_dns1 = 129

abbrev pub ipcp_opt_dns2 : ℕ
ipcp_opt_dns2 = 131

pub record Harvest : Type 0 where
  pub address : Option Ipv4Addr
  pub dns : List Ipv4Addr

abbrev pub harvest_addr : Option Ipv4Addr → Harvest → Harvest
harvest_addr none h = h
harvest_addr (some a) h = if not (is_unspecified a) then record h { address = some a } else h

abbrev pub harvest_dns : Option Ipv4Addr → Harvest → Harvest
harvest_dns none h = h
harvest_dns (some a) h =
    if not (is_unspecified a) && not (holds_addr h.dns a)
    then record h { dns = h.dns ++ (a ∷ []) }
    else h

abbrev pub harvest_option : ℕ → Bytes → Harvest → Harvest
harvest_option t v h =
    if t == ipcp_opt_addr
    then harvest_addr (opt_ipv4 v) h
    else if t == ipcp_opt_dns1 || t == ipcp_opt_dns2
    then harvest_dns (opt_ipv4 v) h
    else h

unfoldable pub harvest_ipcp : List (ℕ × Bytes) → Harvest → Harvest
unfolding is_unspecified holds_addr
harvest_ipcp [] h = h
harvest_ipcp ((t, v) ∷ opts) h = harvest_ipcp opts (harvest_option t v h)

pub record Ipcp : Type 0 where
  pub link : Link
  pub opts : List (ℕ × Bytes)
  pub id : ℕ
  pub ours : Bool
  pub theirs : Bool
  pub harvest : Harvest
  pub peer : Option Ipv4Addr

abbrev pub done : Ipcp → Bool
done s = s.ours && s.theirs

abbrev zero4 : Bytes
zero4 = 0 ∷ 0 ∷ 0 ∷ 0 ∷ []

abbrev pub zero_opts : List (ℕ × Bytes)
zero_opts = (ipcp_opt_addr, zero4) ∷ (ipcp_opt_dns1, zero4) ∷ (ipcp_opt_dns2, zero4) ∷ []

abbrev pub with_link : Ipcp → Result Link → Result Ipcp
with_link s (ok l) = ok (record s { link = l })
with_link s (err e) = err e

unfoldable pub request : Round → Ipcp → Result Ipcp
request r s = with_link s (send_request r ppp_ipcp s.id s.opts s.link)

-- The peer's address, from the last address option of its request.
unfoldable pub peer_address : List (ℕ × Bytes) → Option Ipv4Addr → Option Ipv4Addr
peer_address [] peer = peer
peer_address ((t, v) ∷ opts) peer =
    peer_address opts (if t == ipcp_opt_addr then opt_ipv4 v else peer)

unfoldable pub on_conf_req : Round → CpPacket → Ipcp → Result Ipcp
unfolding peer_address
on_conf_req r pkt s =
    with_link (record s { peer = peer_address (parse_options pkt.payload) s.peer; theirs = true })
      (send r ppp_ipcp (build_cp code_conf_ack pkt.id pkt.payload) s.link)

-- Each proposal replaces our option of its type, or is added.
unfoldable pub adopt_or_push : List (ℕ × Bytes) → List (ℕ × Bytes) → List (ℕ × Bytes)
unfolding has_option set_option
adopt_or_push [] opts = opts
adopt_or_push ((t, v) ∷ naked) opts =
    adopt_or_push naked (if has_option t opts then set_option t v opts else opts ++ ((t, v) ∷ []))

unfoldable pub on_conf_nak : Round → CpPacket → Ipcp → Result Ipcp
unfolding request adopt_or_push harvest_ipcp
on_conf_nak r pkt s =
    let naked = parse_options pkt.payload in
    request r (record s {
      harvest = harvest_ipcp naked s.harvest;
      opts = adopt_or_push naked s.opts;
      id = next_id s.id;
    })

unfoldable pub on_conf_rej : Round → CpPacket → Ipcp → Result Ipcp
unfolding request retain
on_conf_rej r pkt s =
    request r (record s { opts = retain (parse_options pkt.payload) s.opts; id = next_id s.id })

abbrev pub terminated : Result Ipcp → Result Ipcp
terminated (ok s) = err (protocol (plain "gateway terminated the PPP link during IPCP"))
terminated (err e) = err e

-- LCP packets during IPCP.
unfoldable pub on_lcp_packet : ℕ → Round → CpPacket → Ipcp → Result Ipcp
on_lcp_packet magic r pkt s =
    if pkt.code == code_echo_req
    then with_link s (write r (echo_reply magic pkt) s.link)
    else if pkt.code == code_conf_req
    then with_link s (send r ppp_lcp (build_cp code_conf_ack pkt.id pkt.payload) s.link)
    else if pkt.code == code_term_req
    then terminated (with_link s (send r ppp_lcp (build_cp code_term_ack pkt.id []) s.link))
    else ok s

unfoldable pub on_packet : Round → CpPacket → Ipcp → Result Ipcp
unfolding on_conf_req on_conf_nak on_conf_rej
on_packet r pkt s =
    if pkt.code == code_conf_req
    then on_conf_req r pkt s
    else if pkt.code == code_conf_ack && pkt.id == s.id
    then ok (record s { harvest = harvest_ipcp (parse_options pkt.payload) s.harvest; ours = true })
    else if pkt.code == code_conf_nak
    then on_conf_nak r pkt s
    else if pkt.code == code_conf_rej
    then on_conf_rej r pkt s
    else ok s

unfoldable pub on_frame : ℕ → Round → Frame → Ipcp → Result Ipcp
unfolding on_lcp_packet on_packet
on_frame magic r (proto, payload) s =
    if proto == ppp_ipv4
    then ok (record s { link = stage_early payload s.link })
    else if proto == ppp_lcp
    then parse_cp payload >>= (λ pkt. on_lcp_packet magic r pkt s)
    else if proto == ppp_ipcp
    then parse_cp payload >>= (λ pkt. on_packet r pkt s)
    else ok s

unfoldable pub on_nothing : Round → Ipcp → Result Ipcp
unfolding request
on_nothing r s =
    if leb restart_interval (r.now - s.link.last_tx) && not s.ours then request r s else ok s

abbrev pub on_received : ℕ → Round → Result (Option Frame) → Ipcp → Result Ipcp
on_received magic r (err e) s = err e
on_received magic r (ok none) s = on_nothing r s
on_received magic r (ok (some frame)) s = on_frame magic r frame s

unfoldable pub round : ℕ → Round → Ipcp → Result Ipcp
unfolding on_frame on_nothing
round magic r s =
    let (received, reader) = recv r.reads s.link.reader in
    let l : Link = s.link in
    on_received magic r received (record s { link = record l { reader = reader } })

unfoldable pub ipcp_phase : ℕ → List Round → Ipcp → Progress Ipcp
ipcp_phase magic rounds s =
    negotiation done (round magic) (protocol (plain "IPCP negotiation did not converge")) 0 rounds s

pub record PppSession : Type 0 where
  pub address : Ipv4Addr
  pub peer : Option Ipv4Addr
  pub dns : List Ipv4Addr
  pub mtu : ℕ
  pub magic : ℕ

-- What `negotiate` answers, once both phases are up: the session, and the bytes for the loop.
abbrev pub conclude : ℕ → ℕ → Ipcp → Option Ipv4Addr → Result (PppSession × Bytes)
conclude magic mru s none =
    err (protocol (plain "IPCP completed without assigning an IPv4 address"))
conclude magic mru s (some address) = ok (
  record { address = address; peer = s.peer; dns = s.harvest.dns; mtu = mru; magic = magic },
  s.link.early ++ s.link.reader.buf,
)

-- `none` while the negotiation waits for another round.
abbrev pub after_ipcp : ℕ → ℕ → Progress Ipcp → Option (Result (PppSession × Bytes))
after_ipcp magic mru (finished s rounds) = some (conclude magic mru s s.harvest.address)
after_ipcp magic mru (stopped e) = some (err e)
after_ipcp magic mru (waiting s) = none

abbrev pub start_ipcp : Link → Ipcp
start_ipcp l = record {
  link = l;
  opts = zero_opts;
  id = 1;
  ours = false;
  theirs = false;
  harvest = record { address = none; dns = [] };
  peer = none;
}

-- The first Configure-Request of IPCP, then its rounds; `r` is the clock and the outcome of it.
abbrev pub run_ipcp :
    ℕ → Round → ℕ → List Round → Result Ipcp → Option (Result (PppSession × Bytes))
run_ipcp magic r mru rounds (err e) = some (err e)
run_ipcp magic r mru rounds (ok s) = after_ipcp magic mru (ipcp_phase magic rounds s)

abbrev pub after_lcp : ℕ → Round → Progress Lcp → Option (Result (PppSession × Bytes))
after_lcp magic r (finished s rounds) =
    run_ipcp magic r s.mru rounds (request r (start_ipcp s.link))
after_lcp magic r (stopped e) = some (err e)
after_lcp magic r (waiting s) = none

abbrev pub start_lcp : ℕ → Bytes → Lcp
start_lcp magic prime = record {
  link = record {
    reader = record { buf = prime; http_checked = false };
    written = [];
    early = [];
    last_tx = 0;
  };
  opts = initial_opts magic;
  id = 1;
  mru = default_mru;
  ours_acked = false;
  theirs_acked = false;
}

abbrev pub run_lcp : ℕ → Round → List Round → Result Lcp → Option (Result (PppSession × Bytes))
run_lcp magic r rounds (err e) = some (err e)
run_lcp magic r rounds (ok s) = after_lcp magic r (lcp_phase magic rounds s)

-- `r₁` and `r₂` are the clock and the outcome of the first request of LCP and of IPCP; the rounds
-- that LCP leaves are those of IPCP.
unfoldable pub negotiate :
    ℕ → Bytes → Round → Round → List Round → Option (Result (PppSession × Bytes))
negotiate magic prime r₁ r₂ rounds =
    run_lcp magic r₂ rounds (Lcp.request r₁ (start_lcp magic prime))
