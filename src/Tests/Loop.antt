-- ===== src/Tests/Loop.antt =====
-- The forwarding loop and the routes: forward.rs and routing.rs under crates/vpn-engine/src.
use yellow_vpn.Ipv4.{ipv4}
use yellow_vpn.Common.{
  ◌≡◌, refl, sym, ap, ◌∙◌, ◌≢◌, Bool, true, false, Option, none, some, List, [], ◌∷◌, map, arith,
  Bytes,
}
use yellow_vpn.Error.{Message, plain}
use yellow_vpn.Framer
use yellow_vpn.Tunnel
use yellow_vpn.Framer.{TunnelFramer, cstp, slim, fortinet}
use yellow_vpn.Framer.Laws.{codec}
use yellow_vpn.Framer.Stream.{concat, stream}
use yellow_vpn.Routing.{Route, Handle, install_routes}
use yellow_vpn.Routing.Restore.{RoutingLaws, Route-discrete, Undone, install_routes-Undone}
use yellow_vpn.Forward.{
  read, Event, shutdown, tick, tun_ready, Writes, Loop, running, on_tun, run, initial,
}
use yellow_vpn.Forward.Deliver.{NonEmpty, arrivals, delivered, run-arrivals, on_tun_delivers}
use yellow_vpn.Forward.Liveness.{WellEnded, run-WellEnded, GivesUp, run_silent-GivesUp}

abbrev all_written : Writes
all_written = record { tls_write = λ n. none; tun_write = λ n. none }

abbrev one : Bytes
one = 0x45 ∷ 0x01 ∷ []

abbrev two : Bytes
two = 0x45 ∷ []

abbrev idle : Loop
idle = initial cstp []

one_ne_nil : one ≢ []
one_ne_nil e = cc

two_ne_nil : two ≢ []
two_ne_nil e = cc

on_tun_delivers_example :
    (bytes : Bytes) × (on_tun all_written (read one) (map read (two ∷ [])) idle
      ≡ running (record idle { tls_out = bytes ∷ [] }))
    × ((chunks : List Bytes)
        → NonEmpty chunks
        → concat chunks ≡ bytes
        → run all_written (arrivals chunks) (initial cstp [])
          ≡ running (delivered (one ∷ two ∷ []) [] (initial cstp [])))
on_tun_delivers_example =
    on_tun_delivers all_written all_written one (two ∷ []) idle refl (λ n. refl) (omega arith)
      (one_ne_nil, (two_ne_nil, tt)) (omega arith)

-- The frame of `two`, cut behind its third byte.
abbrev front : Bytes
front = 0x53 ∷ 0x54 ∷ 0x46 ∷ []

abbrev back : Bytes
back = 0x01 ∷ 0x00 ∷ 0x01 ∷ 0x00 ∷ 0x00 ∷ 0x45 ∷ []

front_ne_nil : front ≢ []
front_ne_nil e = cc

back_ne_nil : back ≢ []
back_ne_nil e = cc

cut_stream : concat (front ∷ back ∷ []) ≡ stream (codec cstp) (two ∷ [])
unfolding Framer.encode_data Tunnel.encode_data
cut_stream = refl

run-arrivals_example :
    run all_written (arrivals (front ∷ back ∷ [])) (initial cstp [])
    ≡ running (delivered (two ∷ []) [] (initial cstp []))
run-arrivals_example =
    run-arrivals all_written (λ n. refl) cstp (two ∷ []) (front ∷ back ∷ []) (omega arith)
      (front_ne_nil, (back_ne_nil, tt)) cut_stream

abbrev quiet : List Event
quiet = tick ∷ tun_ready (read one) [] ∷ tick ∷ tick ∷ []

run_silent-GivesUp_example : GivesUp (run all_written quiet (initial slim []))
run_silent-GivesUp_example =
    run_silent-GivesUp all_written quiet (initial slim []) (tt, (tt, (tt, (tt, tt)))) (omega arith)
      (omega arith)

run-WellEnded_example :
    WellEnded (tick ∷ shutdown ∷ []) (run all_written (tick ∷ shutdown ∷ []) (initial cstp []))
run-WellEnded_example = run-WellEnded all_written cstp [] (tick ∷ shutdown ∷ [])

-- A routing table as its membership test.
abbrev insert_route : Route → (Route → Bool) → Route → Bool
insert_route r t q = elim (Route-discrete q r) [ yes e ↦ true | no n ↦ t q ]

abbrev erase_route : Route → (Route → Bool) → Route → Bool
erase_route r t q = elim (Route-discrete q r) [ yes e ↦ false | no n ↦ t q ]

abbrev add_when : Bool → Route → (Route → Bool) → Option Message × (Route → Bool)
add_when true r t = (some (plain "File exists"), t)
add_when false r t = (none, insert_route r t)

abbrev table_handle : Handle
table_handle = record {
  Table = Route → Bool;
  add = λ r t. add_when (t r) r t;
  delete = λ r t. (none, erase_route r t);
}

erase_self : (r : Route) (t : Route → Bool) → erase_route r t r ≡ false
erase_self r t = elim (Route-discrete r r) as (λ d. elim d [ yes e ↦ false | no n ↦ t r ] ≡ false) [
  | yes e ↦ refl
  | no n ↦ absurd (n refl)
]

erase_others : (r q : Route) (t : Route → Bool) → q ≢ r → erase_route r t q ≡ t q
erase_others r q t ne =
    elim (Route-discrete q r) as (λ d. elim d [ yes e ↦ false | no n ↦ t q ] ≡ t q) [
      | yes e ↦ absurd (ne e)
      | no n ↦ refl
    ]

insert_others : (r q : Route) (t : Route → Bool) → q ≢ r → insert_route r t q ≡ t q
insert_others r q t ne =
    elim (Route-discrete q r) as (λ d. elim d [ yes e ↦ true | no n ↦ t q ] ≡ t q) [
      | yes e ↦ absurd (ne e)
      | no n ↦ refl
    ]

abbrev Outcome : Type 0
Outcome = Option Message × (Route → Bool)

add_when_failed :
    (b : Bool) (r q : Route) (t : Route → Bool) (e : Message) (t' : Route → Bool)
    → ◌≡◌ {A = Outcome} (add_when b r t) (some e, t')
    → t' q ≡ t q
add_when_failed true r q t e t' h = sym (ap (λ (o : Outcome). o.1 q) h)
add_when_failed false r q t e t' h = absurd (cc)

add_when_new :
    (b : Bool) (r : Route) (t t' : Route → Bool)
    → ◌≡◌ {A = Outcome} (add_when b r t) (none, t')
    → b ≡ false
add_when_new true r t t' h = absurd (cc)
add_when_new false r t t' h = refl

add_when_others :
    (b : Bool) (r q : Route) (t t' : Route → Bool)
    → q ≢ r
    → ◌≡◌ {A = Outcome} (add_when b r t) (none, t')
    → t' q ≡ t q
add_when_others true r q t t' ne h = absurd (cc)
add_when_others false r q t t' ne h = sym (ap (λ (o : Outcome). o.1 q) h) ∙ insert_others r q t ne

deleted :
    (u : Route → Bool) (q : Route) (t' : Route → Bool)
    → ◌≡◌ {A = Outcome} (none, u) (none, t')
    → t' q ≡ u q
deleted u q t' h = sym (ap (λ (o : Outcome). o.1 q) h)

deleted_failed :
    (u : Route → Bool) (q : Route) (t : Route → Bool) (e : Message) (t' : Route → Bool)
    → ◌≡◌ {A = Outcome} (none, u) (some e, t')
    → t' q ≡ t q
deleted_failed u q t e t' h = absurd (cc)

table_handle_laws : RoutingLaws table_handle
table_handle_laws = record {
  holds = λ r t. t r;
  add_failed = λ r q t e t' h. add_when_failed (t r) r q t e t' h;
  add_new = λ r t t' h. add_when_new (t r) r t t' h;
  add_others = λ r q t t' ne h. add_when_others (t r) r q t t' ne h;
  delete_failed = λ r q t e t' h. deleted_failed (erase_route r t) q t e t' h;
  delete_gone = λ r t t' h. deleted (erase_route r t) r t' h ∙ erase_self r t;
  delete_others = λ r q t t' ne h. deleted (erase_route r t) q t' h ∙ erase_others r q t ne;
}

no_routes : Route → Bool
no_routes r = false

install_routes-Undone_example :
    Undone table_handle table_handle_laws no_routes
      (install_routes table_handle none 7 ((ipv4 10 0 0 0, 8) ∷ (ipv4 10 0 0 0, 8) ∷ []) no_routes)
install_routes-Undone_example =
    install_routes-Undone table_handle table_handle_laws none 7
      ((ipv4 10 0 0 0, 8) ∷ (ipv4 10 0 0 0, 8) ∷ []) no_routes
