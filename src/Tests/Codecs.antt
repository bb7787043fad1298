-- ===== src/Tests/Codecs.antt =====
-- The frame codecs: fortigate/framing.rs, fortigate/ppp.rs, checkpoint/framing.rs, tunnel.rs and
-- framer.rs under crates/vpn-engine/src.
use yellow_vpn.Common.{ℕ, ◌≡◌, refl, none, some, List, [], ◌∷◌, ◌++◌, arith, Bytes}
use yellow_vpn.Error.{ok}
use yellow_vpn.Tunnel.{CstpType, dpd_out, CstpPacket, write_header, decode, try_decode_cstp}
use yellow_vpn.Fortigate.Framing.{encode_frame, try_decode_frame}
use yellow_vpn.Fortigate.Ppp.{
  CpPacket, build_cp, parse_cp, build_options, parse_options, encode_ppp, ppp_lcp, code_conf_req,
}
use yellow_vpn.Fortigate.Ppp.Control.{build_cp-parse_cp}
use yellow_vpn.Fortigate.Ppp.Options.{parse_options-build_options}
use yellow_vpn.Framer.{
  payload, TunnelFramer, cstp, fortinet, encode_data, encode_shutdown, try_decode,
}
use yellow_vpn.Framer.Laws.{try_decode-encode_data, try_decode_partial}
use yellow_vpn.Framer.Control.{Answers, keepalive-Answers}

abbrev four : Bytes
four = 0xDE ∷ 0xAD ∷ 0xBE ∷ 0xEF ∷ []

abbrev four_frame : Bytes
four_frame = 0x00 ∷ 0x0A ∷ 0x50 ∷ 0x50 ∷ 0x00 ∷ 0x04 ∷ four

frame_of_four : encode_frame four ≡ ok four_frame
unfolding encode_frame
frame_of_four = refl

four_bytes_decoded : try_decode_frame (four_frame ++ (0x00 ∷ [])) ≡ (ok (some four), 0x00 ∷ [])
unfolding try_decode_frame
four_bytes_decoded = refl

-- The Configure-Request captured on the wire.
abbrev lcp_options : List (ℕ × Bytes)
lcp_options = (1, 0x05 ∷ 0x4a ∷ []) ∷ (5, four) ∷ []

conf_req_bytes :
    encode_ppp ppp_lcp (build_cp code_conf_req 1 (build_options lcp_options))
    ≡ 0x00 ∷ 0x16 ∷ 0x50 ∷ 0x50 ∷ 0x00 ∷ 0x10 ∷ 0xc0 ∷ 0x21 ∷ 0x01 ∷ 0x01 ∷ 0x00 ∷ 0x0e ∷ 0x01
      ∷ 0x04 ∷ 0x05 ∷ 0x4a ∷ 0x05 ∷ 0x06 ∷ four
unfolding encode_ppp build_cp build_options
conf_req_bytes = refl

parse_options_junk :
    parse_options (1 ∷ 4 ∷ 0x05 ∷ 0x4a ∷ 5 ∷ 9 ∷ 0 ∷ 0 ∷ []) ≡ (1, 0x05 ∷ 0x4a ∷ []) ∷ []
unfolding parse_options
parse_options_junk = refl

abbrev dpd : Bytes
dpd = 0x53 ∷ 0x54 ∷ 0x46 ∷ 0x01 ∷ 0x00 ∷ 0x00 ∷ 0x03 ∷ 0x00 ∷ []

abbrev dpd_packet : CstpPacket
dpd_packet = record { packet_type = dpd_out; payload = [] }

decode_dpd : decode dpd ≡ ok dpd_packet
unfolding decode
decode_dpd = refl

dpd_decoded : try_decode_cstp (dpd ++ (0x53 ∷ [])) ≡ (ok (some dpd_packet), 0x53 ∷ [])
unfolding try_decode_cstp
dpd_decoded = refl

abbrev request : CpPacket
request = record { code = 9; id = 42; payload = four }

abbrev request_bytes : Bytes
request_bytes = 9 ∷ 42 ∷ 0 ∷ 8 ∷ 0xDE ∷ 0xAD ∷ 0xBE ∷ 0xEF ∷ 7 ∷ []

request_parsed : parse_cp request_bytes ≡ ok request
unfolding parse_cp
request_parsed = refl

build_cp-parse_cp_example :
    (junk : Bytes) × (request_bytes ≡ build_cp request.code request.id request.payload ++ junk)
build_cp-parse_cp_example = build_cp-parse_cp request_bytes (omega arith) request_parsed

parse_options-build_options_example : parse_options (build_options lcp_options) ≡ lcp_options
parse_options-build_options_example = parse_options-build_options lcp_options (omega arith)

abbrev forti : TunnelFramer
forti = fortinet 0xdeadbeef 7

try_decode-encode_data_example :
    try_decode forti (encode_data forti four ++ (1 ∷ [])) ≡ (ok (some (payload four)), 1 ∷ [])
try_decode-encode_data_example = try_decode-encode_data forti four (1 ∷ []) (omega arith)

abbrev cut_frame : Bytes
cut_frame = 0x00 ∷ 0x0c ∷ 0x50 ∷ 0x50 ∷ 0x00 ∷ 0x06 ∷ 0x00 ∷ []

cut_frame_lem : encode_data forti four ≡ cut_frame ++ (0x21 ∷ four)
unfolding encode_data encode_ppp
cut_frame_lem = refl

try_decode_partial_example : try_decode forti cut_frame ≡ (ok none, cut_frame)
try_decode_partial_example =
    try_decode_partial forti four cut_frame four 0x21 (omega arith) cut_frame_lem

keepalive-Answers_example : Answers forti (fortinet 1 0) (0x00 ∷ [])
keepalive-Answers_example = keepalive-Answers forti (fortinet 1 0) (0x00 ∷ []) tt

encode_shutdown_cstp : encode_shutdown cstp ≡ some (write_header CstpType.disconnect 0)
unfolding encode_shutdown
encode_shutdown_cstp = refl
