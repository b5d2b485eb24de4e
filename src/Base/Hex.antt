-- ===== src/Base/Hex.antt =====
-- encoding/hex: two digits for a byte. The decoder takes upper case as well.
use Prim.Native.Nat.{ℕ, ◌+◌, ◌-◌, ◌*◌, ◌/◌, ◌%◌, ◌<◌}
use mathlib.Core.Path.{◌≡◌, refl}
use mathlib.Core.Bool.{false, ◌&&◌}
use mathlib.Core.Option.{Option, none, some}
use mathlib.Core.List.{[], ◌∷◌}
use native.Mathlib.Omega.{arith}
use agent_tunnel.Base.Tests.{ltb, leb, if◌then◌else◌}
use agent_tunnel.Base.Lists.{All}
use agent_tunnel.Base.Text.{Text, is_space, IsSolid}
use agent_tunnel.Base.Bytes.{Bytes, IsByte}

unfoldable pub hex_digit : ℕ → ℕ
hex_digit n = if ltb n 10 then n + b'0' else n - 10 + b'a'

digit_value : ℕ → Option ℕ
digit_value c =
    if leb b'0' c && leb c b'9'
    then some (c - b'0')
    else if leb b'a' c && leb c b'f'
    then some (c - b'a' + 10)
    else if leb b'A' c && leb c b'F'
    then some (c - b'A' + 10)
    else none

-- hex.EncodeToString
unfoldable pub hex_encode : Bytes → Text
unfolding hex_digit
hex_encode [] = []
hex_encode (b ∷ bs) = hex_digit (b / 16) ∷ hex_digit (b % 16) ∷ hex_encode bs

join_byte : Option ℕ → Option ℕ → Option Bytes → Option Bytes
join_byte (some high) (some low) (some bs) = some ((high * 16 + low) ∷ bs)
join_byte _ _ _ = none

-- hex.DecodeString, without which error it is.
unfoldable pub hex_decode : Text → Option Bytes
unfolding digit_value join_byte
hex_decode [] = some []
hex_decode (c ∷ []) = none
hex_decode (c ∷ d ∷ s) = join_byte (digit_value c) (digit_value d) (hex_decode s)

digit_value-hex_digit : (n : ℕ) → n < 16 → digit_value (hex_digit n) ≡ some n
unfolding digit_value hex_digit
digit_value-hex_digit n h = ground arith

pub hex_decode-hex_encode : (b : Bytes) → All IsByte b → hex_decode (hex_encode b) ≡ some b
unfolding hex_decode hex_encode
hex_decode-hex_encode [] h = refl
hex_decode-hex_encode (b ∷ bs) h = ground (
  arith,
  digit_value-hex_digit (b / 16) (omega (arith, h.0)),
  digit_value-hex_digit (b % 16) (omega arith),
  hex_decode-hex_encode bs h.1,
)

hex_digit-is_space : (n : ℕ) → n < 16 → is_space (hex_digit n) ≡ false
unfolding hex_digit is_space
hex_digit-is_space n h = ground arith

pub hex_encode-IsSolid : (b : Bytes) → All IsByte b → IsSolid (hex_encode b)
unfolding hex_encode
hex_encode-IsSolid [] h = tt
hex_encode-IsSolid (b ∷ bs) h = (
  hex_digit-is_space (b / 16) (omega (arith, h.0)),
  (hex_digit-is_space (b % 16) (omega arith), hex_encode-IsSolid bs h.1),
)
