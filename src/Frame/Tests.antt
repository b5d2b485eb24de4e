-- ===== src/Frame/Tests.antt =====
-- Concrete runs of the frame codec, and its theorems at concrete inputs.
use agent_tunnel.Base.{
  ◌≡◌, ◌≤◌, ◌+◌, ◌↔◌, ◌++◌, refl, [], ◌∷◌, none, ℕ_discrete, length, All, arith,
}
use agent_tunnel.Frame.{
  Frame, ok, err, encode, decode, read, encode_varint, decode_varint, varint_encoded_len, read_full,
  payload_too_large, Bytes, IsByte,
}
use agent_tunnel.Frame.Varint.{IsEncoding, encode_varint_shortest}
use agent_tunnel.Frame.RoundTrip.{
  encode_total, decode-encode, decode-encode_too_large, decode_bounds,
}
use agent_tunnel.Frame.Reader.{source, as_read, read-decode, read-encode}

encode_small : encode (record { kind = 1; payload = 7 ∷ 8 ∷ [] }) ≡ ok (1 ∷ 2 ∷ 7 ∷ 8 ∷ [])
unfolding encode encode_varint
encode_small = refl

abbrev wide : Bytes
wide = 0x41 ∷ 0x2c ∷ []

encode_wide : encode_varint 300 ≡ ok wide
unfolding encode_varint
encode_wide = refl

decode_small :
    decode (1 ∷ 0x40 ∷ 2 ∷ 7 ∷ 8 ∷ 9 ∷ []) 10 ≡ ok (record { kind = 1; payload = 7 ∷ 8 ∷ [] }, 5)
unfolding decode decode_varint varint_encoded_len ℕ_discrete
decode_small = refl

read_small :
    read (record { pending = 1 ∷ 0x40 ∷ 2 ∷ 7 ∷ 8 ∷ 9 ∷ []; failure = none }) 10
    ≡ ok (record { kind = 1; payload = 7 ∷ 8 ∷ [] }, record { pending = 9 ∷ []; failure = none })
unfolding read read_full decode_varint varint_encoded_len ℕ_discrete
read_small = refl

abbrev small : Frame
small = record { kind = 1; payload = 7 ∷ 8 ∷ [] }

abbrev written : Bytes
written = 1 ∷ 2 ∷ 7 ∷ 8 ∷ []

encode_varint_shortest_example :
    ((300 ≤ 63) ↔ (length wide ≡ 1))
    × ((300 ≤ 16_383) ↔ (length wide ≤ 2))
    × ((300 ≤ 1_073_741_823) ↔ (length wide ≤ 4))
encode_varint_shortest_example = encode_varint_shortest 300 wide encode_wide

encode_total_example :
    (prefix : Bytes) × IsEncoding (length small.payload) prefix
    × (encode small ≡ ok (small.kind ∷ prefix ++ small.payload))
encode_total_example = encode_total small (omega arith)

decode-encode_example : decode (written ++ (9 ∷ [])) 10 ≡ ok (small, length written)
decode-encode_example = decode-encode small written (9 ∷ []) 10 encode_small (omega arith)

decode-encode_too_large_example : decode (written ++ (9 ∷ [])) 1 ≡ err payload_too_large
decode-encode_too_large_example =
    decode-encode_too_large small written (9 ∷ []) 1 encode_small (omega arith)

-- The length in two bytes, and a byte behind the frame.
abbrev padded : Bytes
padded = 1 ∷ 0x40 ∷ 2 ∷ 7 ∷ 8 ∷ 9 ∷ []

decode_bounds_example :
    (5 ≤ length padded)
    × (length small.payload ≤ 10)
    × (length small.payload + 2 ≤ 5)
    × (5 ≤ length small.payload + 9)
decode_bounds_example = decode_bounds padded 10 small 5 decode_small

abbrev stream : Bytes
stream = written ++ (9 ∷ [])

stream-IsByte : All IsByte stream
stream-IsByte = (omega arith, (omega arith, (omega arith, (omega arith, (omega arith, tt)))))

read-decode_example : read (source stream) 10 ≡ as_read stream (decode stream 10)
read-decode_example = read-decode stream 10 stream-IsByte

read-encode_example : read (source (written ++ (9 ∷ []))) 10 ≡ ok (small, source (9 ∷ []))
read-encode_example = read-encode small written (9 ∷ []) 10 encode_small (omega arith) stream-IsByte
