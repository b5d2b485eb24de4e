-- ===== src/Frame/RoundTrip.antt =====
-- `Decode` after `Encode`, the error paths of both, and what a successful `Decode` has read.
use mathlib.Core.List.{append_assoc}
use native.Mathlib.Decide.{dec_le}
use agent_tunnel.Base.{
  ℕ, ◌+◌, ◌≤◌, ◌<◌, ◌≡◌, refl, ap, ◌∙◌, [], ◌∷◌, ◌++◌, arith, length, length-append, length-take,
  take, drop, take-append_left, drop-append_left, length-drop, drop-one-add,
}
use agent_tunnel.Frame.{
  Bytes, Result, ok, err, Frame, ◌>>=◌, encode, decode, decode_body, decode_payload, decode_varint,
  invalid_varint, payload_too_large,
}
use agent_tunnel.Frame.Varint.{max_varint, IsEncoding, encode_varint_total, encode_varint_too_large}
use agent_tunnel.Frame.Prefix.{decode_varint_bounds}

-- Every frame whose payload has a length below 2 ^ 62 is encoded: as its type, a well-formed prefix for
-- the length, and the payload.
pub encode_total :
    (f : Frame)
    → length f.payload ≤ max_varint
    → (prefix : Bytes) × IsEncoding (length f.payload) prefix
      × (encode f ≡ ok (f.kind ∷ prefix ++ f.payload))
unfolding encode
encode_total f h =
    let (prefix, good) = encode_varint_total (length f.payload) h in
    (prefix, good, rw good.encoded refl)

pub encode_too_large : (f : Frame) → max_varint < length f.payload → encode f ≡ err invalid_varint
unfolding encode
encode_too_large f h = rw (encode_varint_too_large (length f.payload) h) refl

-- What `Decode` answers behind a well-formed prefix for a payload of `v` bytes.
decode_encoded :
    (kind v : ℕ) (prefix : Bytes) (tail : Bytes) (max : ℕ)
    → IsEncoding v prefix
    → decode (kind ∷ prefix ++ tail) max
      ≡ decode_payload kind (kind ∷ prefix ++ tail) max v (length prefix)
unfolding decode decode_body
decode_encoded kind v [] tail max good = absurd (omega (arith, good.some_bytes))
decode_encoded kind v (first ∷ more) tail max good = rw (good.decoded tail) refl

payload_slice :
    (kind : ℕ) (prefix p rest : Bytes)
    → take (length p) (drop (1 + length prefix) (kind ∷ prefix ++ (p ++ rest))) ≡ p
payload_slice kind prefix p rest =
    ap (take (length p)) (
      drop-one-add (length prefix) kind (prefix ++ (p ++ rest))
      ∙ drop-append_left prefix (p ++ rest))
    ∙ take-append_left p rest

payload_encoded :
    (f : Frame) (prefix rest : Bytes) (max : ℕ)
    → length f.payload ≤ max
    → decode_payload f.kind
        (f.kind ∷ prefix ++ (f.payload ++ rest))
        max
        (length f.payload)
        (length prefix)
      ≡ ok (f, 1 + length prefix + length f.payload)
unfolding decode_payload
payload_encoded f prefix rest max h = ground (
  arith,
  payload_slice f.kind prefix f.payload rest,
  length-append prefix (f.payload ++ rest),
  length-append f.payload rest,
)

-- `Decode` gives back the frame that `Encode` wrote, if its payload is within the limit, and how long
-- its encoding is, whatever follows.
pub decode-encode :
    (f : Frame) (raw rest : Bytes) (max : ℕ)
    → encode f ≡ ok raw
    → length f.payload ≤ max
    → decode (raw ++ rest) max ≡ ok (f, length raw)
decode-encode f raw rest max e h = elim (dec_le (length f.payload) max_varint) [
  | no big ↦ cc (e, encode_too_large f (omega arith))
  | yes fits ↦
      let (prefix, good, written) = encode_total f fits in
      let same : raw ≡ f.kind ∷ prefix ++ f.payload = cc in
      rw (same, append_assoc prefix f.payload rest)
        (decode_encoded f.kind _ prefix (f.payload ++ rest) max good
          ∙ payload_encoded f prefix rest max h
          ∙ ap ok (ap (λ (n : ℕ). (f, n)) (omega (arith, length-append prefix f.payload))))
]

-- An encoded frame whose payload is over the limit of the receiver is refused as too large, whatever
-- follows.
pub decode-encode_too_large :
    (f : Frame) (raw rest : Bytes) (max : ℕ)
    → encode f ≡ ok raw
    → max < length f.payload
    → decode (raw ++ rest) max ≡ err payload_too_large
unfolding decode_payload
decode-encode_too_large f raw rest max e h = elim (dec_le (length f.payload) max_varint) [
  | no big ↦ cc (e, encode_too_large f (omega arith))
  | yes fits ↦
      let (prefix, good, written) = encode_total f fits in
      let same : raw ≡ f.kind ∷ prefix ++ f.payload = cc in
      rw (same, append_assoc prefix f.payload rest)
        (decode_encoded f.kind _ prefix (f.payload ++ rest) max good ∙ ground arith)
]

payload_bounds :
    (kind : ℕ) (raw : Bytes) (max v k : ℕ) (f : Frame) (n : ℕ)
    → decode_payload kind raw max v k ≡ ok (f, n)
    → (n ≤ length raw) × (length f.payload ≤ max) × (n ≡ 1 + k + length f.payload)
unfolding decode_payload
payload_bounds kind raw max v k f n e =
    ground (arith, length-take v (drop (1 + k) raw), length-drop (1 + k) raw)

-- What a successful `Decode` has read lies in the input and is two to nine bytes longer than the
-- payload, and the payload is within the limit.
pub decode_bounds :
    (raw : Bytes) (max : ℕ) (f : Frame) (n : ℕ)
    → decode raw max ≡ ok (f, n)
    → (n ≤ length raw)
      × (length f.payload ≤ max)
      × (length f.payload + 2 ≤ n)
      × (n ≤ length f.payload + 9)
unfolding decode decode_body
decode_bounds [] max f n e = cc
decode_bounds (kind ∷ []) max f n e = cc
decode_bounds (kind ∷ first ∷ rest) max f n e = step (decode_varint (first ∷ rest)) refl e
  where
    step :
        (r : Result (ℕ × ℕ))
        → decode_varint (first ∷ rest) ≡ r
        → (r >>= λ p. decode_payload kind (kind ∷ first ∷ rest) max p.0 p.1) ≡ ok (f, n)
        → (n ≤ length (kind ∷ first ∷ rest))
          × (length f.payload ≤ max)
          × (length f.payload + 2 ≤ n)
          × (n ≤ length f.payload + 9)
    step (err x) d h = cc
    step (ok (v, k)) d h = omega (
      arith,
      decode_varint_bounds (first ∷ rest) v k d,
      payload_bounds kind (kind ∷ first ∷ rest) max v k f n h,
    )
