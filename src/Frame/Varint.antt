-- ===== src/Frame/Varint.antt =====
-- The length prefix of a frame: encodeVarint and decodeVarint.
use agent_tunnel.Base.{
  ℕ, ◌+◌, ◌*◌, ◌/◌, ◌%◌, ◌^◌, ◌≤◌, ◌<◌, ◌≡◌, refl, [], ◌∷◌, ◌++◌, arith, length, All, ◌↔◌,
}
use native.Mathlib.Decide.{dec_le}
use agent_tunnel.Base.Bits.{bit_or_field, bit_and_field}
use agent_tunnel.Frame.{
  Bytes, IsByte, ok, err, invalid_varint, encode_varint, decode_varint, varint_encoded_len,
}

pub width_one : (b : ℕ) → b < 64 → varint_encoded_len b ≡ 1
unfolding varint_encoded_len
width_one b h = let e : b / 64 ≡ 0 = omega arith in rw e refl

pub width_two : (b : ℕ) → b < 64 → varint_encoded_len (64 + b) ≡ 2
unfolding varint_encoded_len
width_two b h = let e : (64 + b) / 64 ≡ 1 = omega arith in rw e refl

pub width_four : (b : ℕ) → b < 64 → varint_encoded_len (128 + b) ≡ 4
unfolding varint_encoded_len
width_four b h = let e : (128 + b) / 64 ≡ 2 = omega arith in rw e refl

pub width_eight : (b : ℕ) → b < 64 → varint_encoded_len (192 + b) ≡ 8
unfolding varint_encoded_len
width_eight b h = let e : (192 + b) / 64 ≡ 3 = omega arith in rw e refl

pub decode_one : (b : ℕ) (rest : Bytes) → b < 64 → decode_varint (b ∷ rest) ≡ ok (b, 1)
unfolding decode_varint
decode_one b rest h = ground (arith, width_one b, bit_and_field 6 0 b)

pub decode_two :
    (b c : ℕ) (rest : Bytes)
    → b < 64
    → c < 256
    → decode_varint ((64 + b) ∷ c ∷ rest) ≡ ok (b * 256 + c, 2)
unfolding decode_varint
decode_two b c rest h hc = ground (arith, width_two b, bit_and_field 14 1 (b * 256 + c))

-- The value of four bytes.
abbrev pub quad : ℕ → ℕ → ℕ → ℕ → ℕ
quad a b c d = ((a * 256 + b) * 256 + c) * 256 + d

pub decode_four :
    (b c d e : ℕ) (rest : Bytes)
    → b < 64
    → c < 256
    → d < 256
    → e < 256
    → decode_varint ((128 + b) ∷ c ∷ d ∷ e ∷ rest) ≡ ok (quad b c d e, 4)
unfolding decode_varint
decode_four b c d e rest h hc hd he =
    ground (arith, width_four b, bit_and_field 30 2 (quad b c d e))

pub decode_eight :
    (b c d e f g i j : ℕ) (rest : Bytes)
    → b < 64
    → c < 256
    → d < 256
    → e < 256
    → f < 256
    → g < 256
    → i < 256
    → j < 256
    → decode_varint ((192 + b) ∷ c ∷ d ∷ e ∷ f ∷ g ∷ i ∷ j ∷ rest)
      ≡ ok (quad b c d e * 2 ^ 32 + quad f g i j, 8)
unfolding decode_varint
decode_eight b c d e f g i j rest h hc hd he hf hg hi hj =
    ground (arith, width_eight b, bit_and_field 62 3 (quad b c d e * 2 ^ 32 + quad f g i j))

-- The four forms that encodeVarint writes.
encode_one : (v : ℕ) → v ≤ 63 → encode_varint v ≡ ok (v ∷ [])
unfolding encode_varint
encode_one v h = ground arith

encode_two : (v : ℕ) → 63 < v → v ≤ 16_383 → encode_varint v ≡ ok ((64 + v / 256) ∷ v % 256 ∷ [])
unfolding encode_varint
encode_two v l h = ground (arith, bit_or_field 14 1 v)

encode_four :
    (v : ℕ)
    → 16_383 < v
    → v ≤ 1_073_741_823
    → encode_varint v ≡ ok ((128 + v / 2 ^ 24) ∷ v / 2 ^ 16 % 256 ∷ v / 2 ^ 8 % 256 ∷ v % 256 ∷ [])
unfolding encode_varint
encode_four v l h = ground (arith, bit_or_field 30 2 v)

encode_eight :
    (v : ℕ)
    → 1_073_741_823 < v
    → v ≤ 4_611_686_018_427_387_903
    → encode_varint v
      ≡ ok (
          (192 + v / 2 ^ 56)
          ∷ v / 2 ^ 48 % 256
          ∷ v / 2 ^ 40 % 256
          ∷ v / 2 ^ 32 % 256
          ∷ v / 2 ^ 24 % 256
          ∷ v / 2 ^ 16 % 256
          ∷ v / 2 ^ 8 % 256
          ∷ v % 256
          ∷ [])
unfolding encode_varint
encode_eight v l h = ground (arith, bit_or_field 62 3 v)

abbrev pub max_varint : ℕ
max_varint = 4_611_686_018_427_387_903

-- What a good encoding of `v` is.
pub record IsEncoding (v : ℕ) (raw : Bytes) : Type 0 where
  pub encoded : encode_varint v ≡ ok raw
  pub decoded : (rest : Bytes) → decode_varint (raw ++ rest) ≡ ok (v, length raw)
  pub some_bytes : 1 ≤ length raw
  pub few_bytes : length raw ≤ 8
  pub bytes : All IsByte raw

one_IsEncoding : (v : ℕ) → v ≤ 63 → IsEncoding v (v ∷ [])
one_IsEncoding v h = record {
  encoded = encode_one v h;
  decoded = λ rest. decode_one v rest (omega arith);
  some_bytes = omega arith;
  few_bytes = omega arith;
  bytes = omega arith;
}

two_IsEncoding : (v : ℕ) → 63 < v → v ≤ 16_383 → IsEncoding v ((64 + v / 256) ∷ v % 256 ∷ [])
two_IsEncoding v l h = record {
  encoded = encode_two v l h;
  decoded = λ rest. ground (arith, decode_two (v / 256) (v % 256) rest);
  some_bytes = omega arith;
  few_bytes = omega arith;
  bytes = omega arith;
}

four_IsEncoding :
    (v : ℕ)
    → 16_383 < v
    → v ≤ 1_073_741_823
    → IsEncoding v ((128 + v / 2 ^ 24) ∷ v / 2 ^ 16 % 256 ∷ v / 2 ^ 8 % 256 ∷ v % 256 ∷ [])
four_IsEncoding v l h = record {
  encoded = encode_four v l h;
  decoded = λ rest.
      ground (arith, decode_four (v / 2 ^ 24) (v / 2 ^ 16 % 256) (v / 2 ^ 8 % 256) (v % 256) rest);
  some_bytes = omega arith;
  few_bytes = omega arith;
  bytes = omega arith;
}

eight_IsEncoding :
    (v : ℕ)
    → 1_073_741_823 < v
    → v ≤ max_varint
    → IsEncoding v (
        (192 + v / 2 ^ 56)
        ∷ v / 2 ^ 48 % 256
        ∷ v / 2 ^ 40 % 256
        ∷ v / 2 ^ 32 % 256
        ∷ v / 2 ^ 24 % 256
        ∷ v / 2 ^ 16 % 256
        ∷ v / 2 ^ 8 % 256
        ∷ v % 256
        ∷ [])
eight_IsEncoding v l h = record {
  encoded = encode_eight v l h;
  decoded = λ rest. ground (
    arith,
    decode_eight (v / 2 ^ 56) (v / 2 ^ 48 % 256) (v / 2 ^ 40 % 256) (v / 2 ^ 32 % 256)
        (v / 2 ^ 24 % 256) (v / 2 ^ 16 % 256) (v / 2 ^ 8 % 256) (v % 256) rest,
  );
  some_bytes = omega arith;
  few_bytes = omega arith;
  bytes = omega arith;
}

-- Every value of at most 62 bits is encoded, in 1 to 8 bytes that decode to it whatever follows.
pub encode_varint_total : (v : ℕ) → v ≤ max_varint → (raw : Bytes) × IsEncoding v raw
encode_varint_total v h = elim (dec_le v 63) [
  | yes p ↦ (_, one_IsEncoding v p)
  | no p ↦ elim (dec_le v 16_383) [
    | yes q ↦ (_, two_IsEncoding v (omega arith) q)
    | no q ↦ elim (dec_le v 1_073_741_823) [
      | yes r ↦ (_, four_IsEncoding v (omega arith) r)
      | no r ↦ (_, eight_IsEncoding v (omega arith) h)
    ]
  ]
]

pub encode_varint_too_large : (v : ℕ) → max_varint < v → encode_varint v ≡ err invalid_varint
unfolding encode_varint
encode_varint_too_large v h = ground arith

-- The shortest of the four forms is written: one byte just for numbers up to 63, at most two just up
-- to 16383, and at most four just up to 1073741823.
pub encode_varint_shortest :
    (v : ℕ) (raw : Bytes)
    → encode_varint v ≡ ok raw
    → ((v ≤ 63) ↔ (length raw ≡ 1))
      × ((v ≤ 16_383) ↔ (length raw ≤ 2))
      × ((v ≤ 1_073_741_823) ↔ (length raw ≤ 4))
unfolding encode_varint
encode_varint_shortest v raw h = ground arith
