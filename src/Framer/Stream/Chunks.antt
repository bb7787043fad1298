-- ===== src/Framer/Stream/Chunks.antt =====
-- crates/vpn-engine/src/forward.rs: the inner decode loop on a stream of frames.
use yellow_vpn.Common.{
  ℕ, zero, suc, ◌≤◌, ◌<◌, ◌≡◌, refl, ap, ◌≢◌, ◌⊎◌, inl, inr, none, some, List, [], ◌∷◌, ◌++◌, map,
  append-nil, arith, length, length-append, Bytes,
}
use yellow_vpn.Framer.{payload}
use yellow_vpn.Error.{ok}
use yellow_vpn.Framer.Stream.{StreamCodec, drain, stream, Fit}

-- Two strings with one beginning: one of them begins with the other.
split_append :
    (a b c d : Bytes)
    → a ++ b ≡ c ++ d
    → ((e : Bytes) × (a ≡ c ++ e) × (e ++ b ≡ d))
      ⊎ ((x : ℕ) × (back : Bytes) × (c ≡ a ++ (x ∷ back)))
split_append a b [] d h = inl (a, refl, h)
split_append [] b (y ∷ c) d h = inr (y, c, refl)
split_append (x ∷ a) b (y ∷ c) d h = elim (split_append a b c d (ground arith)) [
  | inl (e, p, q) ↦ inl (e, ground arith, q)
  | inr (z, back, p) ↦ inr (z, back, ground arith)
]

module _ (codec : StreamCodec) where
  open codec use {encode, decode, decode-encode, decode_partial, decode_empty, decode_shrinks}

  -- The buffer is a piece of the first frame that is to come, and not all of it.
  pub data Waits : Bytes → List Bytes → Type 0 where
    idle : {left : Bytes} → left ≡ [] → Waits left []
    partial :
        {left : Bytes} {p : Bytes} {ps : List Bytes} (x : ℕ) (back : Bytes)
        → encode p ≡ left ++ (x ∷ back)
        → Waits left (p ∷ ps)

  -- The packets that the buffer holds whole, and the others.
  pub record Cut (fuel : ℕ) (buf later : Bytes) (ps : List Bytes) : Type 0 where
    pub done : List Bytes
    pub todo : List Bytes
    pub left : Bytes
    pub splits : ps ≡ done ++ todo
    pub drains :
        drain codec fuel buf ≡ record { events = map payload done; left = left; error = none }
    pub remains : left ++ later ≡ stream codec todo
    pub waits : Waits left todo

  pub drain-Cut :
      (ps : List Bytes) (fuel : ℕ) (buf later : Bytes)
      → Fit codec ps
      → length buf < fuel
      → buf ++ later ≡ stream codec ps
      → Cut fuel buf later ps
  unfolding drain
  drain-Cut ps zero buf later fit hf h = absurd (omega arith)
  drain-Cut [] (suc fuel) [] later fit hf h = record {
    done = [];
    todo = [];
    left = [];
    splits = refl;
    drains = rw decode_empty;
    remains = h;
    waits = idle refl;
  }
  drain-Cut [] (suc fuel) (x ∷ buf) later fit hf h = absurd (cc)
  drain-Cut (p ∷ ps) (suc fuel) buf later fit hf h =
      elim (split_append buf later (encode p) (stream codec ps) h) [
        | inl (rest, e, r) ↦
            let step : decode buf ≡ (ok (some (payload p)), rest) =
              rw e (decode-encode p rest fit.0) in
            let c = drain-Cut ps fuel rest later fit.1 (omega (arith, decode_shrinks buf step)) r in
            record {
              done = p ∷ c.done;
              todo = c.todo;
              left = c.left;
              splits = ap (◌∷◌ p) c.splits;
              drains = rw (step, c.drains);
              remains = c.remains;
              waits = c.waits;
            }
        | inr (x, back, e) ↦ record {
          done = [];
          todo = p ∷ ps;
          left = buf;
          splits = refl;
          drains = rw (decode_partial p buf back x fit.0 e);
          remains = h;
          waits = partial x back e;
        }
      ]

  encode-ne-nil : (p : Bytes) → length p ≤ codec.max_payload → encode p ≢ []
  encode-ne-nil p fit e = cc (rw (append-nil, e) at (decode-encode p [] fit), decode_empty)

  pub Waits-start : (ps : List Bytes) → Fit codec ps → Waits [] ps
  Waits-start [] fit = idle refl
  Waits-start (p ∷ ps) fit = go (encode p) refl
    where
      go : (bs : Bytes) → encode p ≡ bs → Waits [] (p ∷ ps)
      go [] e = absurd (encode-ne-nil p fit.0 e)
      go (x ∷ back) e = partial x back e

  -- With nothing more to come, nothing is waited for.
  pub Waits-end :
      {left : Bytes} {ps : List Bytes}
      → Waits left ps
      → left ++ [] ≡ stream codec ps
      → (ps ≡ []) × (left ≡ [])
  Waits-end (idle e) h = (refl, e)
  Waits-end (partial {left} {p} {ps} x back e) h = absurd (
      omega (
        arith,
        ap length h,
        ap length e,
        length-append left [],
        length-append (encode p) (stream codec ps),
        length-append left (x ∷ back),
      ))

  pub Fit-append : (ps qs : List Bytes) → Fit codec (ps ++ qs) → Fit codec qs
  Fit-append [] qs h = h
  Fit-append (p ∷ ps) qs h = Fit-append ps qs h.1
