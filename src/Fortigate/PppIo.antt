-- ===== src/Fortigate/PppIo.antt =====
-- crates/vpn-engine/src/fortigate/ppp.rs: the reader of PPP frames during the negotiation, and the
-- HTTP prologue that some gateways send before the first frame.
use yellow_vpn.Common.{
  ℕ, suc, ◌*◌, Bool, true, false, not, Option, none, some, List, [], ◌∷◌, ◌++◌, ltb, ◌==◌,
  if◌then◌else◌, length, take, drop, Bytes, from_utf8_lossy, codes,
}
use yellow_vpn.Common.Str.{starts_with, contains}
use yellow_vpn.Error.{
  Text, Message, verbatim, caused, plain, VpnError, tls, protocol, io, Result, ok, err,
}
use yellow_vpn.Fortigate.Ppp.{try_decode_ppp}

-- The place behind the first `\r\n\r\n`.
unfoldable pub find_head_end : Bytes → Option ℕ
find_head_end [] = none
find_head_end (b ∷ buf) =
    let later = find_head_end buf in
    if starts_with (13 ∷ 10 ∷ 13 ∷ 10 ∷ []) (b ∷ buf)
    then some 4
    else elim later [ none ↦ none | some n ↦ some (suc n) ]

-- `lines().next()`: up to the newline, without the carriage return before it.
unfoldable pub first_line : Text → Text
first_line [] = []
first_line (c ∷ cs) =
    let more = first_line cs in
    if c == 10 then [] else if starts_with (13 ∷ 10 ∷ []) (c ∷ cs) then [] else c ∷ more

abbrev max_prologue : ℕ
max_prologue = 8 * 1024

abbrev pub after_head : Option ℕ → Bytes → Result Bool × Bytes
after_head none buf =
    if ltb max_prologue (length buf)
    then (err (protocol (plain "FortiGate tunnel-upgrade header block exceeded size guard")), buf)
    else (ok false, buf)
after_head (some end) buf =
    let status = first_line (from_utf8_lossy (take end buf)) in
    if contains (codes "200") status
    then (ok true, drop end buf)
    else (err (tls (caused (plain "unexpected tunnel-upgrade response") (verbatim status))), buf)

-- `ok true` once the decision is settled, `ok false` while the header is still arriving.
unfoldable pub strip_http_prologue : Bytes → Result Bool × Bytes
unfolding find_head_end
strip_http_prologue buf =
    if ltb (length buf) 5
    then (ok false, buf)
    else if not (starts_with (codes "HTTP/") buf)
    then (ok true, buf)
    else after_head (find_head_end buf) buf

pub record PppIo : Type 0 where
  pub buf : Bytes
  pub http_checked : Bool

-- A read from the stream: some bytes (none at its end), an unexpected end, an error, or the timeout.
pub data NetRead : Type 0 where
  chunk : Bytes → NetRead
  unexpected_eof : NetRead
  read_failed : Message → NetRead
  elapsed : NetRead

abbrev pub Frame : Type 0
Frame = ℕ × Bytes

abbrev pub decode_next : PppIo → Result (Option Frame) × PppIo
decode_next s = let (r, rest) = try_decode_ppp s.buf in (r, record s { buf = rest })

abbrev pub after_prologue : Result Bool × Bytes → Result (Option Frame) × PppIo
after_prologue (err e, buf) = (err e, record { buf = buf; http_checked = false })
after_prologue (ok false, buf) = (ok none, record { buf = buf; http_checked = false })
after_prologue (ok true, buf) = decode_next (record { buf = buf; http_checked = true })

-- What a round of `recv` does before it reads.
unfoldable pub poll : PppIo → Result (Option Frame) × PppIo
unfolding strip_http_prologue
poll s = if s.http_checked then decode_next s else after_prologue (strip_http_prologue s.buf)

abbrev closed : VpnError
closed = tls (plain "gateway closed the tunnel during PPP negotiation")

-- `more` is the next round, behind a read that brought bytes.
abbrev pub after_read :
    (PppIo → Result (Option Frame) × PppIo) → NetRead → PppIo → Result (Option Frame) × PppIo
after_read more (chunk []) s = (err closed, s)
after_read more (chunk (b ∷ bs)) s = more (record s { buf = s.buf ++ (b ∷ bs) })
after_read more unexpected_eof s = (err closed, s)
after_read more (read_failed m) s = (err (io m), s)
after_read more elapsed s = (ok none, s)

abbrev pub after_poll :
    (PppIo → Result (Option Frame) × PppIo)
    → Result (Option Frame) × PppIo
    → Result (Option Frame) × PppIo
after_poll more (ok none, s) = more s
after_poll more (ok (some frame), s) = (ok (some frame), s)
after_poll more (err e, s) = (err e, s)

-- The loop of `recv`, over the reads that it makes; behind the last of them the time is up.
unfoldable pub recv : List NetRead → PppIo → Result (Option Frame) × PppIo
unfolding poll
recv [] s = after_poll (λ s'. (ok none, s')) (poll s)
recv (r ∷ rs) s = after_poll (λ s'. after_read (λ s₂. recv rs s₂) r s') (poll s)
