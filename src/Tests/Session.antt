-- ===== src/Tests/Session.antt =====
-- crates/vpn-engine/src/fortigate/ppp.rs and client.rs: runs of the negotiation and the reconnect loop.
use yellow_vpn.Ipv4.{ipv4}
use yellow_vpn.Common.{
  ℕ, zero, suc, ◌≡◌, refl, ap, false, none, some, List, [], ◌∷◌, arith, length, Bytes,
}
use yellow_vpn.Error.{plain, VpnError, io, is_permanent, ok, err}
use yellow_vpn.Fortigate.Negotiate.{Round}
use yellow_vpn.Fortigate.Negotiate.Ipcp.{PppSession, negotiate}
use yellow_vpn.Fortigate.Negotiate.Bounds.{Answers, negotiate-Answers}
use yellow_vpn.Fortigate.Negotiate.Session.{IsUsable, negotiate-IsUsable}
use yellow_vpn.Client.{Pipeline, CheckPoint, any_connect, connect, Turn, run_client_supervised}
use yellow_vpn.Client.Schedule.{
  FailsFast, delays, schedule, Concluded, run_client_supervised-schedule,
  run_client_supervised-Concluded,
}

abbrev silence : Round
silence = record { top = 0; now = 0; reads = []; write_error = none }

-- A gateway's requests, and its answers to ours, for LCP and for IPCP.
abbrev gateway : Bytes
gateway =
    0 ∷ 12 ∷ 80 ∷ 80 ∷ 0 ∷ 6 ∷ 192 ∷ 33 ∷ 1 ∷ 9 ∷ 0 ∷ 4 ∷ 0 ∷ 12 ∷ 80 ∷ 80 ∷ 0 ∷ 6 ∷ 192 ∷ 33 ∷ 2
    ∷ 1 ∷ 0 ∷ 4 ∷ 0 ∷ 12 ∷ 80 ∷ 80 ∷ 0 ∷ 6 ∷ 128 ∷ 33 ∷ 1 ∷ 9 ∷ 0 ∷ 4 ∷ 0 ∷ 18 ∷ 80 ∷ 80 ∷ 0 ∷ 12
    ∷ 128 ∷ 33 ∷ 2 ∷ 1 ∷ 0 ∷ 10 ∷ 3 ∷ 6 ∷ 10 ∷ 1 ∷ 2 ∷ 3 ∷ []

abbrev four_rounds : List Round
four_rounds = silence ∷ silence ∷ silence ∷ silence ∷ []

abbrev session : PppSession
session = record { address = ipv4 10 1 2 3; peer = none; dns = []; mtu = 1354; magic = 7 }

negotiated : negotiate 7 gateway silence silence four_rounds ≡ some (ok (session, []))
unfolding negotiate yellow_vpn.Fortigate.Negotiate.Lcp.request
    yellow_vpn.Fortigate.Negotiate.send_request yellow_vpn.Fortigate.Negotiate.Lcp.lcp_phase
    yellow_vpn.Fortigate.Negotiate.negotiation yellow_vpn.Fortigate.Negotiate.Lcp.round
    yellow_vpn.Fortigate.PppIo.recv yellow_vpn.Fortigate.Ppp.try_decode_ppp
    yellow_vpn.Fortigate.Framing.try_decode_frame yellow_vpn.Fortigate.Ppp.parse_cp
    yellow_vpn.Fortigate.Ppp.parse_options yellow_vpn.Fortigate.Negotiate.Ipcp.request
    yellow_vpn.Fortigate.Negotiate.Ipcp.ipcp_phase yellow_vpn.Fortigate.Negotiate.Ipcp.round
    yellow_vpn.Fortigate.Ppp.opt_ipv4
negotiated = refl

negotiate-IsUsable_example : IsUsable session
negotiate-IsUsable_example =
    negotiate-IsUsable 7 gateway silence silence four_rounds session [] negotiated

unfoldable repeat : ℕ → Round → List Round
repeat zero r = []
repeat (suc n) r = r ∷ repeat n r

length-repeat : (n : ℕ) (r : Round) → length (repeat n r) ≡ n
unfolding repeat
length-repeat zero r = refl
length-repeat (suc n) r = ap suc (length-repeat n r)

negotiate-Answers_example : Answers (negotiate 7 [] silence silence (repeat 81 silence))
negotiate-Answers_example =
    negotiate-Answers 7 [] silence silence (repeat 81 silence)
      (ground (arith, length-repeat 81 silence))

abbrev refused : VpnError
refused = io (plain "connection refused")

abbrev no_pipeline : Pipeline
no_pipeline = record { tun = err refused; install = λ i routes. ok tt; forwarding = ok tt }

abbrev refused_turn : Turn
refused_turn = record {
  stop_before = false;
  connection =
      any_connect
        (record { tls = err refused; cookie = ok []; session = ok tt; pipeline = no_pipeline });
  lasted = 5;
  stop_after = false;
  clock = 0;
  interrupted = false;
}

refused_turn-FailsFast : FailsFast refused_turn
unfolding connect is_permanent
refused_turn-FailsFast = record {
  goes_on = refl;
  error = refused;
  fails = refl;
  passing = refl;
  not_sustained = refl;
  no_stop = refl;
  slept = refl;
}

abbrev as_is : ℕ → ℕ → ℕ
as_is base clock = base

abbrev two_turns : List Turn
two_turns = refused_turn ∷ refused_turn ∷ []

run_client_supervised-schedule_example :
    (delays (run_client_supervised as_is two_turns).sent ≡ schedule as_is 0 two_turns)
    × ((run_client_supervised as_is two_turns).over ≡ none)
run_client_supervised-schedule_example =
    run_client_supervised-schedule as_is two_turns (omega arith)
      (refused_turn-FailsFast, (refused_turn-FailsFast, tt))

run_client_supervised-Concluded_example : Concluded (run_client_supervised as_is two_turns)
run_client_supervised-Concluded_example = run_client_supervised-Concluded as_is two_turns

abbrev office : CheckPoint
office = record {
  ccc = ok (record { session_id = 51 ∷ 52 ∷ []; active_key = ok (1 ∷ []) });
  tls = err refused;
  session = ok [];
  pipeline = no_pipeline;
}
