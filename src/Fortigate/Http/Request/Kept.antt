-- ===== src/Fortigate/Http/Request/Kept.antt =====
-- crates/vpn-engine/src/fortigate/http.rs: when a session keeps its connection, and the bytes that
-- a response may take.
use yellow_vpn.Common.{
  ℕ, suc, ◌+◌, ◌≤◌, ◌<◌, ◌≡◌, refl, ◌≢◌, inl, inr, Bool, true, false, not, Option, none, some, List,
  [], ◌∷◌, ◌++◌, arith, ltb, if◌then◌else◌, Bool-cases, length, length-append, Bytes, codes,
}
use yellow_vpn.Error.{Text, Result, ok, err}
use yellow_vpn.Fortigate.Http.{HttpResponse, header, response_max}
use yellow_vpn.Fortigate.Http.Request.{
  closes, Answer, settle, on_connected, failure, Attempt, request_on, try_again, request, HttpRead,
  arrived, cut_off, broken, Head, find_head, Delimited, done, read_on, crash, delimit, Reading,
  waiting, on_delimited, with_head, read_response,
}

-- The connection is open only behind a response that does not close it.
abbrev pub Keeps : Answer → Type 0
Keeps (r, false) = Unit
Keeps (r, true) =
    (response : HttpResponse) × (r ≡ some (ok response))
    × (closes (header response (codes "connection")) ≡ false)

Keeps-not :
    (response : HttpResponse) (b : Bool)
    → closes (header response (codes "connection")) ≡ b
    → Keeps (some (ok response), not b)
Keeps-not response true e = tt
Keeps-not response false e = (response, refl, e)

settle-Keeps :
    (failed : Answer) (r : Option (Result HttpResponse)) → Keeps failed → Keeps (settle failed r)
settle-Keeps failed none k = tt
settle-Keeps failed (some (ok r)) k = Keeps-not r (closes (header r (codes "connection"))) refl
settle-Keeps failed (some (err e)) k = k

on_connected-Keeps :
    (c : Result (Unit {0})) (sent : Answer) → Keeps sent → Keeps (on_connected c sent)
on_connected-Keeps (ok u) sent k = k
on_connected-Keeps (err e) sent k = tt

if-Keeps : (b : Bool) (x y : Answer) → Keeps x → Keeps y → Keeps (if b then x else y)
if-Keeps true x y kx ky = kx
if-Keeps false x y kx ky = ky

try_again-Keeps : (method path : Text) (b : Attempt) → Keeps (try_again method path b)
unfolding try_again
try_again-Keeps method path b = on_connected-Keeps b.connected _ (
    settle-Keeps (failure (request_on method path b.written b.reads))
      (request_on method path b.written b.reads) tt)

-- Whatever the network answers in the two attempts, a session keeps a connection only behind a
-- response that it hands on and that does not ask to close it; behind an error there is none.
pub request-Keeps :
    (kept : Bool) (method path : Text) (a b : Attempt) → Keeps (request kept method path a b)
unfolding request
request-Keeps kept method path a b =
    let sent =
      settle-Keeps (try_again method path b) (request_on method path a.written a.reads)
        (try_again-Keeps method path b) in
    if-Keeps kept _ _ sent (on_connected-Keeps a.connected _ sent)

-- The bytes that the reads bring, where each brings some.
abbrev pub Brings : List HttpRead → ℕ → Type 0
Brings [] n = n ≡ 0
Brings (arrived [] ∷ reads) n = ⊥
Brings (arrived (b ∷ bs) ∷ reads) n = (m : ℕ) × (n ≡ suc (length bs) + m) × Brings reads m
Brings (cut_off ∷ reads) n = ⊥
Brings (broken m ∷ reads) n = ⊥

on_delimited-≢ :
    (next : Reading) (buf : Bytes) (d : Delimited)
    → (length buf ≤ response_max → next ≢ waiting)
    → on_delimited next buf d ≢ waiting
on_delimited-≢ next buf (done r) go = λ e. cc
on_delimited-≢ next buf crash go = λ e. cc
on_delimited-≢ next buf read_on go = elim (Bool-cases (ltb response_max (length buf))) [
  | inl big ↦ rw big (λ e. cc)
  | inr small ↦ rw small (go (ground arith))
]

with_head-≢ :
    (f : Option Head → Reading) (r : Result (Option Head))
    → ((h : Option Head) → f h ≢ waiting)
    → with_head f r ≢ waiting
with_head-≢ f (err e) go = λ h. cc
with_head-≢ f (ok h) go = go h

-- A response is answered, with an error if need be, once more bytes have come than the size guard
-- allows, however the server cuts them into reads.
pub read_response-≢_waiting :
    (reads : List HttpRead) (n : ℕ) (head : Option Head) (buf : Bytes)
    → Brings reads n
    → response_max < length buf + n
    → read_response reads head buf ≢ waiting
unfolding read_response
read_response-≢_waiting [] n head buf brings more =
    with_head-≢ _ (find_head head buf)
      (λ h. on_delimited-≢ waiting buf (delimit h buf) (λ small. absurd (omega arith)))
read_response-≢_waiting (arrived (b ∷ bs) ∷ reads) n head buf (m, sum, brings) more =
    with_head-≢ _ (find_head head buf) (λ h.
      on_delimited-≢ (read_response reads h (buf ++ (b ∷ bs))) buf (delimit h buf) (λ small.
        read_response-≢_waiting reads m h (buf ++ (b ∷ bs)) brings
          (let size = length-append buf (b ∷ bs) in omega arith)))
read_response-≢_waiting (arrived [] ∷ reads) n head buf brings more = absurd brings
read_response-≢_waiting (cut_off ∷ reads) n head buf brings more = absurd brings
read_response-≢_waiting (broken m ∷ reads) n head buf brings more = absurd brings
