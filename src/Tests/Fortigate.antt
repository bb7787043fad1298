-- ===== src/Tests/Fortigate.antt =====
-- crates/vpn-engine/src/fortigate: the HTTP client, the login form and the login.
use yellow_vpn.Common.{
  ℕ, zero, suc, ◌<◌, ◌≡◌, refl, ap, [], ◌∷◌, ◌++◌, arith, ◌==◌, lt→ltb, length, All, Bytes, IsByte,
  as_bytes, codes,
}
use yellow_vpn.Error.{Result, ok}
use yellow_vpn.Fortigate.Http.{HttpResponse, complete, panicked, decode_chunked, chunk_size}
use yellow_vpn.Fortigate.Http.Chunks.{chunk, Chunks, AllChunks, sent, decode_chunked-sent}
use yellow_vpn.Fortigate.Login.{Request, url_encode, build_login_body, authenticate_on}
use yellow_vpn.Fortigate.Login.Form.{split_on-build_login_body}
use yellow_vpn.Fortigate.Login.Cookie.{IsIssued, authenticate_on-IsIssued}
use yellow_vpn.Common.Str.{split_on}

abbrev two_chunks : Chunks
two_chunks = (codes "2", codes "ab") ∷ (codes "1;x", codes "c") ∷ []

two_chunks_formed : AllChunks two_chunks
unfolding chunk_size
two_chunks_formed = (
  chunk (codes "2") (codes "ab") (refl, tt) refl (omega arith),
  (chunk (codes "1;x") (codes "c") (refl, (refl, (refl, tt))) refl (omega arith), tt),
)

decode_chunked-sent_example :
    decode_chunked (sent (codes "0" ++ (13 ∷ 10 ∷ (13 ∷ 10 ∷ []))) two_chunks)
    ≡ complete (codes "abc")
unfolding chunk_size
decode_chunked-sent_example =
    decode_chunked-sent two_chunks (codes "0") (13 ∷ 10 ∷ []) two_chunks_formed (refl, tt) refl
      (omega arith) (omega arith)

-- A size that wraps the sum around passes the size guard, and the slice behind it panics.
overflow_panics : decode_chunked (codes "1\r\nA\r\nffffffffffffffff\r\nBC") ≡ panicked
unfolding decode_chunked
overflow_panics = refl

zeros : ℕ → Bytes
zeros zero = []
zeros (suc n) = 0 ∷ zeros n

length-zeros : (n : ℕ) → length (zeros n) ≡ n
unfolding zeros
length-zeros zero = refl
length-zeros (suc n) = ap suc (length-zeros n)

ab_bytes : (c : ℕ) → c < 128 → All IsByte (as_bytes (c ∷ []))
unfolding as_bytes
ab_bytes c h = rw (lt→ltb c 0x80 h) (omega arith, tt)

split_on-build_login_body_example :
    split_on (λ c. c == b'&') (build_login_body (codes "a") (codes "&") (codes "r"))
    ≡ (codes "username=" ++ url_encode (codes "a"))
      ∷ (codes "credential=" ++ url_encode (codes "&"))
      ∷ (codes "realm=" ++ url_encode (codes "r"))
      ∷ codes "ajax=1"
      ∷ []
split_on-build_login_body_example =
    split_on-build_login_body (codes "a") (codes "&") (codes "r") (ab_bytes b'a' (omega arith))
      (ab_bytes b'&' (omega arith)) (ab_bytes b'r' (omega arith))

escaped : url_encode (codes "p&=") ≡ codes "p%26%3D"
unfolding url_encode as_bytes
escaped = refl

-- A gateway that answers every request with a cookie.
abbrev gateway : Unit {0} → Request → Result HttpResponse × Unit {0}
gateway s r = (
  ok (record {
    status = 200;
    headers = (codes "set-cookie", codes "SVPNCOOKIE=abc; path=/") ∷ [];
    body = [];
  }),
  s,
)

logged_in : (authenticate_on gateway (codes "u") (codes "p") [] tt).0 ≡ ok (codes "abc")
unfolding authenticate_on
logged_in = refl

authenticate_on-IsIssued_example : IsIssued gateway (codes "abc")
authenticate_on-IsIssued_example =
    authenticate_on-IsIssued gateway (codes "u") (codes "p") [] tt logged_in
