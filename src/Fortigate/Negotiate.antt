-- ===== src/Fortigate/Negotiate.antt =====
-- crates/vpn-engine/src/fortigate/ppp.rs: `negotiate`, which runs LCP and then IPCP. A round is one
-- turn of a `while` loop: the reads that `recv` makes, the clock, and the outcome of its write.
pub mod Lcp
pub mod Ipcp
pub mod Bounds
pub mod Session
use yellow_vpn.Ipv4.{Ipv4Addr, ipv4, is_unspecified}
use yellow_vpn.Common.{
  ℕ, zero, suc, ◌+◌, ◌-◌, ◌*◌, ◌/◌, ◌%◌, ◌^◌, ◌≤◌, ◌<◌, String, ◌≡◌, refl, sym, ap, ◌∙◌, ◌≢◌, ◌↔◌,
  ◌⊎◌, inl, inr, Bool, true, false, not, ◌&&◌, ◌||◌, Option, none, some, List, [], ◌∷◌, ◌++◌, map,
  append-nil, append_assoc, arith, ltb, leb, ◌==◌, if◌then◌else◌, ltb→lt, ltb→le, lt→ltb, le→ltb,
  leb→le, ==_iff, ==_self, Bool-cases, Option-cases, length, get_or, take, drop, All, length-append,
  take-append-drop, length-take, length-drop, take-length_append, drop-length_append, take-append,
  drop-append, All-append, Bytes, IsByte, as_u8, as_u16, as_u32, be16, from_be16, be32, from_be32,
  from_be16-be16, from_be32-be32, as_bytes, from_utf8_lossy, IsScalar, from_utf8_lossy-as_bytes,
  codes,
}
use yellow_vpn.Error.{
  ensure, ◌>>◌, Text, Message, format, verbatim, caused, plain, VpnError, config, privilege, tun,
  tun_unavailable, routing, tls, protocol, auth_failed, server_disconnect, io, not_implemented,
  is_permanent, Result, ok, err, ◌>>=◌, Result-cases,
}
use yellow_vpn.Fortigate.Ppp.{
  CpPacket, opt_ipv4, ppp_ipv4, encode_ppp, encode_ppp_append, build_cp, build_options,
  code_conf_req,
}
use yellow_vpn.Fortigate.PppIo.{NetRead, PppIo, Frame, recv}

-- Milliseconds since `started`: at the top of the loop, and behind `recv`.
pub record Round : Type 0 where
  pub top : ℕ
  pub now : ℕ
  pub reads : List NetRead
  pub write_error : Option Message

abbrev pub restart_interval : ℕ
restart_interval = 3_000

abbrev pub negotiate_deadline : ℕ
negotiate_deadline = 30_000

abbrev pub max_rounds : ℕ
max_rounds = 40

-- What both phases share: the reader, the frames written, the data frames kept, and the last time
-- that a Configure-Request was sent.
pub record Link : Type 0 where
  pub reader : PppIo
  pub written : List Bytes
  pub early : Bytes
  pub last_tx : ℕ

-- `write_all` and `flush`.
unfoldable pub write : Round → Bytes → Link → Result Link
write r bytes l = elim r.write_error [
  | none ↦ ok (record l { written = l.written ++ (bytes ∷ []) })
  | some m ↦ err (io m)
]

-- `io.send`
unfoldable pub send : Round → ℕ → Bytes → Link → Result Link
unfolding write
send r proto payload l = write r (encode_ppp proto payload) l

-- A Configure-Request with the options, and `last_tx = Instant::now()`.
unfoldable pub send_request : Round → ℕ → ℕ → List (ℕ × Bytes) → Link → Result Link
unfolding send
send_request r proto id opts l = do
  l' ← send r proto (build_cp code_conf_req id (build_options opts)) l
  ok (record l' { last_tx = r.now })

unfoldable pub stage_early : Bytes → Link → Link
stage_early payload l = record l { early = l.early ++ encode_ppp_append ppp_ipv4 payload [] }

-- `iter_mut().find(|(ot, _)| *ot == t)`: the first option of the type takes the value.
unfoldable pub has_option : ℕ → List (ℕ × Bytes) → Bool
has_option t [] = false
has_option t ((ot, v) ∷ opts) = ot == t || has_option t opts

unfoldable pub set_option : ℕ → Bytes → List (ℕ × Bytes) → List (ℕ × Bytes)
set_option t v [] = []
set_option t v ((ot, old) ∷ opts) =
    let rest = set_option t v opts in if ot == t then (ot, v) ∷ opts else (ot, old) ∷ rest

-- `retain`: the options whose types were not rejected.
unfoldable pub retain : List (ℕ × Bytes) → List (ℕ × Bytes) → List (ℕ × Bytes)
unfolding has_option
retain rejected [] = []
retain rejected ((t, v) ∷ opts) =
    let rest = retain rejected opts in if has_option t rejected then rest else (t, v) ∷ rest

-- How a `while` loop stands: it ended, it failed, or it waits for another round.
pub data Progress (A : Type 0) : Type 0 where
  finished : A → List Round → Progress A
  stopped : VpnError → Progress A
  waiting : A → Progress A

unfoldable pub next_id : ℕ → ℕ
next_id id = as_u8 (id + 1)

-- One turn of the loop: is it done, has it run too long, and else what its body does; `more` is
-- the next turn.
abbrev pub turn :
    {S : Type 0}
    → Bool
    → Bool
    → S
    → VpnError
    → List Round
    → Result S
    → (S → Progress S)
    → Progress S
turn true late s diverged rounds m more = finished s rounds
turn false true s diverged rounds m more = stopped diverged
turn false false s diverged rounds (ok s') more = more s'
turn false false s diverged rounds (err e) more = stopped e

abbrev pub too_late : ℕ → Round → Bool
too_late rounds r = ltb max_rounds (rounds + 1) || ltb negotiate_deadline r.top

-- The two phases' loop. `done` is the negation of the loop's test; `body` is its round.
unfoldable pub negotiation :
    {S : Type 0} → (S → Bool) → (Round → S → Result S) → VpnError → ℕ → List Round → S → Progress S
negotiation done body diverged rounds [] s = if done s then finished s [] else waiting s
negotiation done body diverged rounds (r ∷ rs) s =
    turn (done s) (too_late rounds r) s diverged (r ∷ rs) (body r s)
      (λ s'. negotiation done body diverged (rounds + 1) rs s')
