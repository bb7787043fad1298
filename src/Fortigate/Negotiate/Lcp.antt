-- ===== src/Fortigate/Negotiate/Lcp.antt =====
-- crates/vpn-engine/src/fortigate/ppp.rs: the LCP phase of `negotiate`.
use yellow_vpn.Common.{
  ℕ, ◌-◌, Bool, true, not, ◌&&◌, ◌||◌, Option, none, some, List, [], ◌∷◌, leb, ◌==◌, if◌then◌else◌,
  length, get_or, Bytes, be16, from_be16, be32,
}
use yellow_vpn.Error.{format, plain, VpnError, protocol, auth_failed, Result, ok, err, ◌>>=◌}
use yellow_vpn.Fortigate.Ppp.{
  CpPacket, ppp_lcp, ppp_ipv4, ppp_pap, ppp_chap, code_conf_req, code_conf_ack, code_conf_nak,
  code_conf_rej, code_term_req, code_term_ack, code_echo_req, parse_cp, build_cp, parse_options,
  build_options, echo_reply,
}
use yellow_vpn.Fortigate.PppIo.{Frame, recv}
use yellow_vpn.Fortigate.Negotiate.{
  Round, Link, restart_interval, write, send, send_request, stage_early, set_option, retain,
  next_id, Progress, negotiation,
}

abbrev pub lcp_opt_mru : ℕ
lcp_opt_mru = 1

abbrev pub lcp_opt_auth : ℕ
lcp_opt_auth = 3

abbrev pub lcp_opt_magic : ℕ
lcp_opt_magic = 5

abbrev pub default_mru : ℕ
default_mru = 1354

pub record Lcp : Type 0 where
  pub link : Link
  pub opts : List (ℕ × Bytes)
  pub id : ℕ
  pub mru : ℕ
  pub ours_acked : Bool
  pub theirs_acked : Bool

abbrev pub done : Lcp → Bool
done s = s.ours_acked && s.theirs_acked

-- What we ask for.
abbrev pub initial_opts : ℕ → List (ℕ × Bytes)
initial_opts magic = (lcp_opt_mru, be16 default_mru) ∷ (lcp_opt_magic, be32 magic) ∷ []

abbrev pub with_link : Lcp → Result Link → Result Lcp
with_link s (ok l) = ok (record s { link = l })
with_link s (err e) = err e

-- The request for the options that stand.
unfoldable pub request : Round → Lcp → Result Lcp
request r s = with_link s (send_request r ppp_lcp s.id s.opts s.link)

-- The options outside the set that we implement.
unfoldable pub unknown_options : List (ℕ × Bytes) → List (ℕ × Bytes)
unknown_options [] = []
unknown_options ((t, v) ∷ opts) =
    let rest = unknown_options opts in
    if t == lcp_opt_mru || t == lcp_opt_magic then rest else (t, v) ∷ rest

abbrev pub auth_unsupported : Bytes → VpnError
auth_unsupported v =
    auth_failed
      (format "gateway demands PPP link authentication (LCP auth option 0x{:02x}), unsupported" v)

-- `iter().find(|(t, _)| *t == LCP_OPT_AUTH)`
unfoldable pub find_option : ℕ → List (ℕ × Bytes) → Option Bytes
find_option t [] = none
find_option t ((ot, v) ∷ opts) = if ot == t then some v else find_option t opts

abbrev pub answer_options : Round → CpPacket → List (ℕ × Bytes) → Lcp → Result Lcp
answer_options r pkt [] s =
    with_link (record s { theirs_acked = true })
      (send r ppp_lcp (build_cp code_conf_ack pkt.id pkt.payload) s.link)
answer_options r pkt (o ∷ unknown) s =
    with_link s
      (send r ppp_lcp (build_cp code_conf_rej pkt.id (build_options (o ∷ unknown))) s.link)

unfoldable pub on_conf_req : Round → CpPacket → Lcp → Result Lcp
unfolding send find_option unknown_options
on_conf_req r pkt s =
    let peer_opts = parse_options pkt.payload in
    elim (find_option lcp_opt_auth peer_opts) [
      | some v ↦ err (auth_unsupported v)
      | none ↦ answer_options r pkt (unknown_options peer_opts) s
    ]

-- The last well-formed MRU among the acknowledged options.
unfoldable pub acked_mru : List (ℕ × Bytes) → ℕ → ℕ
acked_mru [] mru = mru
acked_mru ((t, v) ∷ opts) mru =
    acked_mru opts
      (if t == lcp_opt_mru && length v == 2 then from_be16 (get_or v 0 0) (get_or v 1 0) else mru)

unfoldable pub on_conf_ack : CpPacket → Lcp → Lcp
unfolding acked_mru
on_conf_ack pkt s = record s {
  mru = acked_mru (parse_options pkt.payload) s.mru;
  ours_acked = true;
}

-- The peer's counter-proposals for options that we sent.
unfoldable pub adopt : List (ℕ × Bytes) → List (ℕ × Bytes) → List (ℕ × Bytes)
unfolding set_option
adopt [] opts = opts
adopt ((t, v) ∷ naked) opts = adopt naked (set_option t v opts)

unfoldable pub on_conf_nak : Round → CpPacket → Lcp → Result Lcp
unfolding request adopt
on_conf_nak r pkt s =
    request r (record s { opts = adopt (parse_options pkt.payload) s.opts; id = next_id s.id })

unfoldable pub on_conf_rej : Round → CpPacket → Lcp → Result Lcp
unfolding request retain
on_conf_rej r pkt s =
    request r (record s { opts = retain (parse_options pkt.payload) s.opts; id = next_id s.id })

abbrev pub terminated : Result Lcp → Result Lcp
terminated (ok s) = err (protocol (plain "gateway terminated the PPP link during LCP"))
terminated (err e) = err e

unfoldable pub on_packet : ℕ → Round → CpPacket → Lcp → Result Lcp
unfolding on_conf_req on_conf_ack on_conf_nak on_conf_rej
on_packet magic r pkt s =
    if pkt.code == code_conf_req
    then on_conf_req r pkt s
    else if pkt.code == code_conf_ack && pkt.id == s.id
    then ok (on_conf_ack pkt s)
    else if pkt.code == code_conf_nak
    then on_conf_nak r pkt s
    else if pkt.code == code_conf_rej
    then on_conf_rej r pkt s
    else if pkt.code == code_echo_req
    then with_link s (write r (echo_reply magic pkt) s.link)
    else if pkt.code == code_term_req
    then terminated (with_link s (send r ppp_lcp (build_cp code_term_ack pkt.id []) s.link))
    else ok s

unfoldable pub on_frame : ℕ → Round → Frame → Lcp → Result Lcp
unfolding on_packet
on_frame magic r (proto, payload) s =
    if proto == ppp_ipv4
    then ok (record s { link = stage_early payload s.link })
    else if proto == ppp_pap || proto == ppp_chap
    then err (
        auth_failed
          (plain "gateway requested PPP link authentication (PAP/CHAP), which is not supported"))
    else if proto == ppp_lcp
    then parse_cp payload >>= (λ pkt. on_packet magic r pkt s)
    else ok s

unfoldable pub on_nothing : Round → Lcp → Result Lcp
unfolding request
on_nothing r s =
    if leb restart_interval (r.now - s.link.last_tx) && not s.ours_acked then request r s else ok s

abbrev pub on_received : ℕ → Round → Result (Option Frame) → Lcp → Result Lcp
on_received magic r (err e) s = err e
on_received magic r (ok none) s = on_nothing r s
on_received magic r (ok (some frame)) s = on_frame magic r frame s

-- A round: what `recv` yields, and the answer to it.
unfoldable pub round : ℕ → Round → Lcp → Result Lcp
unfolding on_frame on_nothing
round magic r s =
    let (received, reader) = recv r.reads s.link.reader in
    let l : Link = s.link in
    on_received magic r received (record s { link = record l { reader = reader } })

unfoldable pub lcp_phase : ℕ → List Round → Lcp → Progress Lcp
lcp_phase magic rounds s =
    negotiation done (round magic) (protocol (plain "LCP negotiation did not converge")) 0 rounds s
