-- ===== src/Base/Bytes.antt =====
-- Byte slices as lists of numbers below 256, and Go's encoding/binary.
use agent_tunnel.Base.Lists.{take, drop}
use Prim.Native.Nat.{ℕ, ◌+◌, ◌*◌, ◌-◌, ◌/◌, ◌%◌, ◌^◌, ◌<◌}
use mathlib.Core.List.{List, [], ◌∷◌}

abbrev pub Bytes : Type 0
Bytes = List ℕ

abbrev pub IsByte : ℕ → Type 0
IsByte b = b < 256

-- binary.BigEndian.PutUint16 and its wider forms.
abbrev pub put_uint16 : ℕ → Bytes
put_uint16 v = v / 2 ^ 8 % 256 ∷ v % 256 ∷ []

abbrev pub put_uint32 : ℕ → Bytes
put_uint32 v = v / 2 ^ 24 % 256 ∷ v / 2 ^ 16 % 256 ∷ put_uint16 v

abbrev pub put_uint64 : ℕ → Bytes
put_uint64 v =
    v / 2 ^ 56 % 256 ∷ v / 2 ^ 48 % 256 ∷ v / 2 ^ 40 % 256 ∷ v / 2 ^ 32 % 256 ∷ put_uint32 v

-- binary.BigEndian.Uint16 and its wider forms, on a slice of that many bytes.
abbrev pub big_endian : ℕ → Bytes → ℕ
big_endian acc [] = acc
big_endian acc (b ∷ bs) = big_endian (acc * 256 + b) bs

-- b[low:high]
abbrev pub slice : ℕ → ℕ → Bytes → Bytes
slice low high b = take (high - low) (drop low b)
