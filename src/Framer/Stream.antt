-- ===== src/Framer/Stream.antt =====
-- The contract between a framer and the loop that reads from a byte stream: frames are decoded
-- whole, a piece of a frame waits for the rest, and so the reads may cut the stream anywhere.
pub mod Chunks
use yellow_vpn.Common.{
  ℕ, zero, suc, ◌+◌, ◌-◌, ◌*◌, ◌/◌, ◌%◌, ◌^◌, ◌≤◌, ◌<◌, String, ◌≡◌, refl, sym, ap, ◌∙◌, ◌≢◌, ◌↔◌,
  ◌⊎◌, inl, inr, Bool, true, false, not, ◌&&◌, ◌||◌, Option, none, some, List, [], ◌∷◌, ◌++◌, map,
  append-nil, append_assoc, arith, ltb, leb, ◌==◌, if◌then◌else◌, ltb→lt, ltb→le, lt→ltb, le→ltb,
  leb→le, ==_iff, ==_self, Bool-cases, Option-cases, length, get_or, take, drop, All, length-append,
  take-append-drop, length-take, length-drop, take-length_append, drop-length_append, take-append,
  drop-append, All-append, Bytes, IsByte, as_u8, as_u16, as_u32, be16, from_be16, be32, from_be32,
  from_be16-be16, from_be32-be32, as_bytes, from_utf8_lossy, IsScalar, from_utf8_lossy-as_bytes,
  codes,
}
use yellow_vpn.Error.{
  ensure, ◌>>◌, Text, Message, format, verbatim, caused, plain, VpnError, config, privilege, tun,
  tun_unavailable, routing, tls, protocol, auth_failed, server_disconnect, io, not_implemented,
  is_permanent, Result, ok, err, ◌>>=◌, Result-cases,
}
use yellow_vpn.Framer.{FrameEvent, payload}

pub record StreamCodec : Type 0 where
  pub encode : Bytes → Bytes
  pub decode : Bytes → Result (Option FrameEvent) × Bytes
  pub max_payload : ℕ
  pub decode-encode :
      (p rest : Bytes)
      → length p ≤ max_payload
      → decode (encode p ++ rest) ≡ (ok (some (payload p)), rest)
  pub decode_partial :
      (p front back : Bytes) (x : ℕ)
      → length p ≤ max_payload
      → encode p ≡ front ++ (x ∷ back)
      → decode front ≡ (ok none, front)
  pub decode_empty : decode [] ≡ (ok none, [])
  pub decode_shrinks :
      (buf : Bytes) {e : FrameEvent} {rest : Bytes}
      → decode buf ≡ (ok (some e), rest)
      → length rest < length buf

-- The events, what is left in the buffer, and the error that ended the loop, if one did.
pub record Drained : Type 0 where
  pub events : List FrameEvent
  pub left : Bytes
  pub error : Option VpnError

abbrev pub add_event : FrameEvent → Drained → Drained
add_event e d = record d { events = e ∷ d.events }

abbrev pub after_decode : (Bytes → Drained) → Result (Option FrameEvent) × Bytes → Drained
after_decode more (ok (some e), rest) = add_event e (more rest)
after_decode more (ok none, rest) = record { events = []; left = rest; error = none }
after_decode more (err e, rest) = record { events = []; left = rest; error = some e }

-- The reads, put together.
abbrev pub concat : List Bytes → Bytes
concat [] = []
concat (c ∷ cs) = c ++ concat cs

module _ (codec : StreamCodec) where
  open codec use {
    encode, decode, max_payload, decode-encode, decode_partial, decode_empty, decode_shrinks,
  }

  -- Decode until more bytes are needed, or a frame is malformed.
  unfoldable pub drain : ℕ → Bytes → Drained
  drain zero buf = record { events = []; left = buf; error = none }
  drain (suc fuel) buf = after_decode (drain fuel) (decode buf)

  abbrev pub stream : List Bytes → Bytes
  stream [] = []
  stream (p ∷ ps) = encode p ++ stream ps

  abbrev pub Fit : List Bytes → Type 0
  Fit = All (λ p. length p ≤ max_payload)
