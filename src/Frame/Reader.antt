-- ===== src/Frame/Reader.antt =====
-- `Read` on a source of bytes against `Decode` on the bytes.
use agent_tunnel.Base.{
  ℕ, suc, ◌+◌, ◌-◌, ◌≤◌, ◌<◌, ◌≡◌, refl, sym, ap, ◌∙◌, [], ◌∷◌, ◌++◌, none, arith, length,
  length-drop, take, drop, drop-drop, drop-append_left, All,
}
use native.Mathlib.Decide.{dec_le}
use agent_tunnel.Frame.{
  Bytes, IsByte, Result, ok, err, Frame, Source, encode, decode, decode_body, decode_payload,
  varint_encoded_len, read, read_full, read_payload, read_length, read_varint, read_header,
  truncated_varint, payload_too_large,
}
use agent_tunnel.Frame.Prefix.{
  varint_encoded_len-IsWidth, decode_varint_total, decode_varint-take, decode_varint_short,
}
use agent_tunnel.Frame.RoundTrip.{decode-encode}

-- A source with these bytes and EOF behind them.
abbrev pub source : Bytes → Source
source raw = record { pending = raw; failure = none }

-- The answer of `Decode` as `Read` gives it: with the source behind the frame.
abbrev pub as_read : Bytes → Result (Frame × ℕ) → Result (Frame × Source)
as_read raw (ok (f, n)) = ok (f, source (drop n raw))
as_read raw (err e) = err e

read_payload_lem :
    (kind v k : ℕ) (raw : Bytes) (max : ℕ)
    → 1 + k ≤ length raw
    → v ≤ max
    → read_payload kind v (source (drop (1 + k) raw))
      ≡ as_read raw (decode_payload kind raw max v k)
unfolding read_payload decode_payload read_full
read_payload_lem kind v k raw max h l =
    ground (arith, length-drop (1 + k) raw, drop-drop v (1 + k) raw)

too_large_lem :
    (kind v k : ℕ) (raw : Bytes) (max : ℕ)
    → max < v
    → as_read raw (decode_payload kind raw max v k) ≡ err payload_too_large
unfolding decode_payload
too_large_lem kind v k raw max h = ground arith

width_pos : (b : ℕ) → b < 256 → 1 ≤ varint_encoded_len b
width_pos b h = ground (arith, varint_encoded_len-IsWidth b h)

header_drop :
    (kind first : ℕ) (rest : Bytes) (w : ℕ)
    → 1 ≤ w
    → drop (w - 1) rest ≡ drop (1 + w) (kind ∷ first ∷ rest)
header_drop kind first rest w h = let e : 1 + w ≡ suc (suc (w - 1)) = omega arith in rw e refl

module _ (kind first : ℕ) (rest : Bytes) (max : ℕ) (byte : first < 256) where
  read_length_lem :
      varint_encoded_len first ≤ length (first ∷ rest)
      → read_length kind
          (first ∷ take (varint_encoded_len first - 1) rest)
          (source (drop (varint_encoded_len first - 1) rest))
          max
        ≡ as_read (kind ∷ first ∷ rest) (decode_body kind (first ∷ rest) (kind ∷ first ∷ rest) max)
  unfolding read_length decode_body
  read_length_lem h =
      let w = varint_encoded_len first in
      let (v, e) = decode_varint_total first rest byte h in
      let skipped = header_drop kind first rest w (width_pos first byte) in
      rw (decode_varint-take first rest byte h, e, skipped)
        (elim (dec_le v max) [
          | yes small ↦
              ground
                (arith, read_payload_lem kind v w (kind ∷ first ∷ rest) max (omega arith) small)
          | no large ↦
              ground (arith, too_large_lem kind v w (kind ∷ first ∷ rest) max (omega arith))
        ])

  read_varint_short :
      length (first ∷ rest) < varint_encoded_len first
      → (read_varint kind first (source rest) max ≡ err truncated_varint)
        × (decode_body kind (first ∷ rest) (kind ∷ first ∷ rest) max ≡ err truncated_varint)
  unfolding read_varint read_full decode_body
  read_varint_short h = ground (arith, decode_varint_short first rest h)

  read_varint_lem :
      read_varint kind first (source rest) max
      ≡ as_read (kind ∷ first ∷ rest) (decode_body kind (first ∷ rest) (kind ∷ first ∷ rest) max)
  unfolding read_varint read_full
  read_varint_lem = elim (dec_le (varint_encoded_len first) (length (first ∷ rest))) [
    | yes h ↦ ground (arith, read_length_lem h, width_pos first byte)
    | no h ↦ let (short, cut) = read_varint_short (omega arith) in short ∙ sym (ap (as_read _) cut)
  ]

-- `Read` on a source of bytes that ends in EOF and `Decode` on the same bytes agree on every input,
-- errors included: the same frame, the same error, and the source is left where `Decode` stopped.
pub read-decode :
    (raw : Bytes) (max : ℕ) → All IsByte raw → read (source raw) max ≡ as_read raw (decode raw max)
unfolding read read_header read_full decode
read-decode [] max h = ground arith
read-decode (kind ∷ []) max h = ground arith
read-decode (kind ∷ first ∷ rest) max h = ground (arith, read_varint_lem kind first rest max h.1.0)

-- A frame within the limit that was written is read back, and the source stands at what was written
-- behind it.
pub read-encode :
    (f : Frame) (raw rest : Bytes) (max : ℕ)
    → encode f ≡ ok raw
    → length f.payload ≤ max
    → All IsByte (raw ++ rest)
    → read (source (raw ++ rest)) max ≡ ok (f, source rest)
read-encode f raw rest max e h bytes =
    read-decode (raw ++ rest) max bytes
    ∙ ap (as_read (raw ++ rest)) (decode-encode f raw rest max e h)
    ∙ ap (λ (t : Bytes). ok (f, source t)) (drop-append_left raw rest)
