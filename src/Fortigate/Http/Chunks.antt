-- ===== src/Fortigate/Http/Chunks.antt =====
-- crates/vpn-engine/src/fortigate/http.rs: a chunked body is read back as its chunks.
use mathlib.Core.Path.{subst}
use yellow_vpn.Common.{
  ℕ, zero, suc, ◌+◌, ◌-◌, ◌^◌, ◌≤◌, ◌<◌, ◌≡◌, refl, sym, ap, ◌∙◌, true, false, ◌&&◌, some, List, [],
  ◌∷◌, ◌++◌, append-nil, append_assoc, arith, ltb, leb, ◌==◌, length, All, length-append,
  take-length_append, drop-length_append, Bytes,
}
use yellow_vpn.Common.Str.{crlf, split_once, strip_prefix}
use yellow_vpn.Error.{ok}
use yellow_vpn.Fortigate.Http.{
  response_max, as_usize, slice, Decoded, complete, chunk_size, on_size, decode_from,
  decode_chunked,
}

-- No line end starts within the bytes, nor at their end.
abbrev pub IsLine : Bytes → Type 0
IsLine line = All (λ b. (13 == b) ≡ false) line

-- A chunk: its size line, which names the size of the data, and the data.
pub data IsChunk : Bytes → Bytes → Type 0 where
  chunk :
      (line data_ : Bytes)
      → IsLine line
      → chunk_size line ≡ ok (length data_)
      → 0 < length data_
      → IsChunk line data_

abbrev pub Chunks : Type 0
Chunks = List (Bytes × Bytes)

abbrev pub AllChunks : Chunks → Type 0
AllChunks cs = All (λ c. IsChunk c.0 c.1) cs

abbrev pub sent : Bytes → Chunks → Bytes
sent last [] = last
sent last ((line, data_) ∷ cs) = line ++ (13 ∷ 10 ∷ (data_ ++ (13 ∷ 10 ∷ sent last cs)))

abbrev pub joined : Chunks → Bytes
joined [] = []
joined ((line, data_) ∷ cs) = data_ ++ joined cs

split_once-line :
    (line rest : Bytes)
    → IsLine line
    → split_once crlf (line ++ (13 ∷ 10 ∷ rest)) ≡ some (line, rest)
unfolding split_once strip_prefix
split_once-line [] rest h = refl
split_once-line (b ∷ line) rest h = rw (h.0, split_once-line line rest h.1) refl

as_usize_small : (n : ℕ) → n < 2 ^ 64 → as_usize n ≡ n
as_usize_small n h = omega arith

ltb-false : (a b : ℕ) → b ≤ a → ltb a b ≡ false
ltb-false a b h = ground arith

==_zero : (n : ℕ) → 0 < n → (n == 0) ≡ false
==_zero n h = ground arith

slice_append :
    (front data_ rest : Bytes)
    → slice (front ++ (data_ ++ rest)) (length front) (length front + length data_) ≡ some data_
slice_append front data_ rest =
    rw
      (
        in_range (length front) (length data_) (length (front ++ (data_ ++ rest))) enough,
        drop-length_append front (data_ ++ rest),
        minus (length front) (length data_),
        take-length_append data_ rest,
      )
      refl
  where
    minus : (a b : ℕ) → a + b - a ≡ b
    minus a b = omega arith

    in_range : (a b n : ℕ) → a + b ≤ n → (leb a (a + b) && leb (a + b) n) ≡ true
    in_range a b n h = ground arith

    enough : length front + length data_ ≤ length (front ++ (data_ ++ rest))
    enough =
        let outer = length-append front (data_ ++ rest) in
        let inner = length-append data_ rest in omega arith

on_size-chunk :
    (more : ℕ → Bytes → Decoded) (buf : Bytes) (pos size : ℕ) (out data_ : Bytes)
    → 0 < size
    → length out + size ≤ response_max
    → pos + size + 2 ≤ length buf
    → length buf < 2 ^ 64
    → slice buf pos (pos + size) ≡ some data_
    → on_size more buf pos out (ok size) ≡ more (pos + (size + 2)) (out ++ data_)
on_size-chunk more buf pos size out data_ some_ room inside fits cut =
    rw
      (
        ==_zero size some_,
        as_usize_small (length out + size) (omega arith),
        ltb-false response_max (length out + size) room,
        as_usize_small (pos + size + 2) (omega arith),
        ltb-false (length buf) (pos + size + 2) inside,
        as_usize_small (pos + (size + 2)) (omega arith),
        as_usize_small (pos + size) (omega arith),
        cut,
      )
      refl

-- The bytes of a chunk.
abbrev framed : Bytes → Bytes → Bytes
framed line data_ = line ++ (13 ∷ 10 ∷ (data_ ++ (13 ∷ 10 ∷ [])))

sent-framed :
    (front line data_ last : Bytes) (cs : Chunks)
    → front ++ sent last ((line, data_) ∷ cs) ≡ (front ++ framed line data_) ++ sent last cs
sent-framed front line data_ last cs = simp append_assoc

slice-at :
    (buf : Bytes) (pos : ℕ) (front data_ rest : Bytes)
    → buf ≡ front ++ (data_ ++ rest)
    → pos ≡ length front
    → slice buf pos (pos + length data_) ≡ some data_
slice-at buf pos front data_ rest e p = rw (e, p) (slice_append front data_ rest)

decode_from-chunk :
    (fuel : ℕ) (front line data_ out last : Bytes) (cs : Chunks)
    → IsChunk line data_
    → length out + length data_ ≤ response_max
    → length (front ++ sent last ((line, data_) ∷ cs)) < 2 ^ 64
    → decode_from (suc fuel) (front ++ sent last ((line, data_) ∷ cs)) (length front) out
      ≡ decode_from fuel
          (front ++ sent last ((line, data_) ∷ cs))
          (length (front ++ framed line data_))
          (out ++ data_)
decode_from-chunk fuel front line data_ out last cs (chunk l d is_line size some_) room fits =
    unfold decode_from in
    rw
      (
        drop-length_append front (sent last ((line, data_) ∷ cs)),
        split_once-line line (data_ ++ (13 ∷ 10 ∷ sent last cs)) is_line,
        size,
      )
      (on_size-chunk (decode_from fuel buf) buf pos (length data_) out data_ some_ room inside fits
          (slice-at buf pos (front ++ (line ++ (13 ∷ 10 ∷ []))) data_ (13 ∷ 10 ∷ sent last cs) same
            at)
        ∙ ap (λ n. decode_from fuel buf n (out ++ data_)) next)
  where
    buf : Bytes
    buf = front ++ sent last ((line, data_) ∷ cs)

    pos : ℕ
    pos = length front + length line + 2

    same : buf ≡ (front ++ (line ++ (13 ∷ 10 ∷ []))) ++ (data_ ++ (13 ∷ 10 ∷ sent last cs))
    same = simp append_assoc

    at : pos ≡ length (front ++ (line ++ (13 ∷ 10 ∷ [])))
    at =
        let outer = length-append front (line ++ (13 ∷ 10 ∷ [])) in
        let inner = length-append line (13 ∷ 10 ∷ []) in omega arith

    next : pos + (length data_ + 2) ≡ length (front ++ framed line data_)
    next =
        let outer = length-append front (framed line data_) in
        let line_ = length-append line (13 ∷ 10 ∷ (data_ ++ (13 ∷ 10 ∷ []))) in
        let inner = length-append data_ (13 ∷ 10 ∷ []) in omega arith

    inside : pos + length data_ + 2 ≤ length buf
    inside =
        let whole = ap length (sent-framed front line data_ last cs) in
        let split = length-append (front ++ framed line data_) (sent last cs) in omega (arith, next)

decode_from-sent :
    (fuel : ℕ) (front out zero_line trailer : Bytes) (cs : Chunks)
    → AllChunks cs
    → IsLine zero_line
    → chunk_size zero_line ≡ ok 0
    → length cs < fuel
    → length (out ++ joined cs) ≤ response_max
    → length (front ++ sent (zero_line ++ (13 ∷ 10 ∷ trailer)) cs) < 2 ^ 64
    → decode_from fuel (front ++ sent (zero_line ++ (13 ∷ 10 ∷ trailer)) cs) (length front) out
      ≡ complete (out ++ joined cs)
decode_from-sent zero front out z t cs all is_line none_ fuel room fits = absurd (omega arith)
decode_from-sent (suc fuel) front out z t [] all is_line none_ enough room fits =
    unfold decode_from in
    rw
      (
        drop-length_append front (z ++ (13 ∷ 10 ∷ t)),
        split_once-line z t is_line,
        none_,
        append-nil out,
      )
      refl
decode_from-sent (suc fuel) front out z t ((line, data_) ∷ cs) (c, all) is_line none_ enough room
      fits =
    decode_from-chunk fuel front line data_ out (z ++ (13 ∷ 10 ∷ t)) cs c
      (let sum = length-append out (data_ ++ joined cs) in
        let parts = length-append data_ (joined cs) in omega arith)
      fits
    ∙ subst
        (λ b.
          decode_from fuel b (length (front ++ framed line data_)) (out ++ data_)
          ≡ complete (out ++ (data_ ++ joined cs)))
        (sym (sent-framed front line data_ (z ++ (13 ∷ 10 ∷ t)) cs))
        (decode_from-sent fuel (front ++ framed line data_) (out ++ data_) z t cs all is_line none_
            (omega arith) (rw (assoc) room)
            (subst (λ b. length b < 2 ^ 64) (sent-framed front line data_ (z ++ (13 ∷ 10 ∷ t)) cs)
              fits)
          ∙ ap complete assoc)
  where
    assoc : (out ++ data_) ++ joined cs ≡ out ++ (data_ ++ joined cs)
    assoc = simp append_assoc

-- A body that is sent in chunks is decoded as the chunks' data, one behind the other: each chunk is
-- a line, without a carriage return, that names the size of its data, the data, which is not empty,
-- and a line end; behind the last stands a line that names the size zero. The data fits the size
-- guard, and the buffer the address space. What follows is ignored.
pub decode_chunked-sent :
    (cs : Chunks) (zero_line trailer : Bytes)
    → AllChunks cs
    → IsLine zero_line
    → chunk_size zero_line ≡ ok 0
    → length (joined cs) ≤ response_max
    → length (sent (zero_line ++ (13 ∷ 10 ∷ trailer)) cs) < 2 ^ 64
    → decode_chunked (sent (zero_line ++ (13 ∷ 10 ∷ trailer)) cs) ≡ complete (joined cs)
unfolding decode_chunked
decode_chunked-sent cs z t all is_line none_ room fits =
    decode_from-sent (suc (length (sent (z ++ (13 ∷ 10 ∷ t)) cs))) [] [] z t cs all is_line none_
      (omega (arith, rounds cs)) room fits
  where
    rounds : (cs : Chunks) → length cs ≤ length (sent (z ++ (13 ∷ 10 ∷ t)) cs)
    rounds [] = omega arith
    rounds ((line, data_) ∷ cs) =
        let outer =
          length-append line (13 ∷ 10 ∷ (data_ ++ (13 ∷ 10 ∷ sent (z ++ (13 ∷ 10 ∷ t)) cs))) in
        let inner = length-append data_ (13 ∷ 10 ∷ sent (z ++ (13 ∷ 10 ∷ t)) cs) in
        omega (arith, rounds cs)
