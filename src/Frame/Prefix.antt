-- ===== src/Frame/Prefix.antt =====
-- The length of a prefix, and what decodeVarint says of a prefix that is cut short or goes on.
use agent_tunnel.Frame.Varint.{width_one, width_two, width_four, width_eight}
use agent_tunnel.Base.{
  ℕ, ◌+◌, ◌-◌, ◌≤◌, ◌<◌, ◌≡◌, refl, [], ◌∷◌, arith, length, take, ◌⊎◌, inl, inr, take-take,
  length-take,
}
use native.Mathlib.Decide.{dec_le}
use agent_tunnel.Frame.{Bytes, Result, ok, err, truncated_varint, decode_varint, varint_encoded_len}

-- A successful decodeVarint has read 1 to 8 bytes of its input.
pub decode_varint_bounds :
    (raw : Bytes) (v n : ℕ) → decode_varint raw ≡ ok (v, n) → (1 ≤ n) × (n ≤ 8) × (n ≤ length raw)
unfolding decode_varint
decode_varint_bounds [] v n e = cc
decode_varint_bounds (first ∷ rest) v n e = ground arith

abbrev pub IsWidth : ℕ → Type 0
IsWidth n = (n ≡ 1) ⊎ (n ≡ 2) ⊎ (n ≡ 4) ⊎ (n ≡ 8)

pub varint_encoded_len-IsWidth : (b : ℕ) → b < 256 → IsWidth (varint_encoded_len b)
varint_encoded_len-IsWidth b h = elim (dec_le b 63) [
  | yes p ↦ inl (width_one b (omega arith))
  | no p ↦ elim (dec_le b 127) [
    | yes q ↦ inr (inl (wide 64 2 (width_two (b - 64) (omega arith)) (omega arith)))
    | no q ↦ elim (dec_le b 191) [
      | yes r ↦ inr (inr (inl (wide 128 4 (width_four (b - 128) (omega arith)) (omega arith))))
      | no r ↦ inr (inr (inr (wide 192 8 (width_eight (b - 192) (omega arith)) (omega arith))))
    ]
  ]
]
  where
    wide : (k n : ℕ) → varint_encoded_len (k + (b - k)) ≡ n → k ≤ b → varint_encoded_len b ≡ n
    wide k n e l = let same : k + (b - k) ≡ b = omega arith in rw same at e

-- decodeVarint succeeds where the bytes are there, and its length is that of the first byte.
pub decode_varint_total :
    (first : ℕ) (rest : Bytes)
    → first < 256
    → varint_encoded_len first ≤ length (first ∷ rest)
    → (v : ℕ) × (decode_varint (first ∷ rest) ≡ ok (v, varint_encoded_len first))
unfolding decode_varint
decode_varint_total first rest h l = step (decode_varint (first ∷ rest)) refl
  where
    step :
        (r : Result (ℕ × ℕ))
        → decode_varint (first ∷ rest) ≡ r
        → (v : ℕ) × (decode_varint (first ∷ rest) ≡ ok (v, varint_encoded_len first))
    step (ok (v, k)) e = (v, ground (arith, varint_encoded_len-IsWidth first h))
    step (err x) e = absurd (ground (arith, varint_encoded_len-IsWidth first h))

-- It does not look past those bytes.
pub decode_varint-take :
    (first : ℕ) (rest : Bytes)
    → first < 256
    → varint_encoded_len first ≤ length (first ∷ rest)
    → decode_varint (first ∷ take (varint_encoded_len first - 1) rest)
      ≡ decode_varint (first ∷ rest)
unfolding decode_varint
decode_varint-take first rest h l = elim (varint_encoded_len-IsWidth first h) [
  | inl e ↦ rw e (ground arith)
  | inr (inl e) ↦ rw e (ground (arith, take-take 1 rest, length-take 1 rest))
  | inr (inr (inl e)) ↦ rw e (ground (arith, take-take 3 rest, length-take 3 rest))
  | inr (inr (inr e)) ↦ rw e (ground (arith, take-take 7 rest, length-take 7 rest))
]

pub decode_varint_short :
    (first : ℕ) (rest : Bytes)
    → length (first ∷ rest) < varint_encoded_len first
    → decode_varint (first ∷ rest) ≡ err truncated_varint
unfolding decode_varint
decode_varint_short first rest h = ground arith
