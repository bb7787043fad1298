-- ===== src/Fortigate/Ppp/Control.antt =====
-- crates/vpn-engine/src/fortigate/ppp.rs: writing and reading control packets.
use yellow_vpn.Common.{
  ◌+◌, ◌-◌, ◌^◌, ◌<◌, ◌≡◌, [], ◌∷◌, ◌++◌, arith, length, drop, All, length-append, take-append-drop,
  length-take, take-length_append, Bytes, IsByte, from_be16, from_be16-be16,
}
use yellow_vpn.Error.{ok}
use yellow_vpn.Fortigate.Ppp.{CpPacket, parse_cp, build_cp}

-- A control packet whose length fits its field is parsed back as it was built, whatever follows
-- it.
pub parse_cp-build_cp :
    (p : CpPacket) (junk : Bytes)
    → length p.payload + 4 < 2 ^ 16
    → parse_cp (build_cp p.code p.id p.payload ++ junk) ≡ ok p
unfolding parse_cp build_cp
parse_cp-build_cp p junk h = ground (
  arith,
  from_be16-be16 (length p.payload + 4),
  take-length_append p.payload junk,
  length-append p.payload junk,
)

-- Where the input's elements are bytes, a control packet that is parsed stands at the head of the
-- input as `build_cp` writes it.
pub build_cp-parse_cp :
    (b : Bytes) {p : CpPacket}
    → All IsByte b
    → parse_cp b ≡ ok p
    → (junk : Bytes) × (b ≡ build_cp p.code p.id p.payload ++ junk)
unfolding parse_cp build_cp
build_cp-parse_cp (c ∷ i ∷ hi ∷ lo ∷ rest) {p} bytes h =
    let n = from_be16 hi lo - 4 in
    (drop n rest, ground (arith, take-append-drop n rest, length-take n rest))
build_cp-parse_cp _ bytes h = ([], cc)
