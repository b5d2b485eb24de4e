-- ===== src/Base/Utf8.antt =====
-- []byte(s): the UTF-8 form of a string's code points.
use Prim.Native.Nat.{ℕ, ◌+◌, ◌/◌, ◌%◌}
use mathlib.Core.Path.{◌≡◌, refl, sym}
use mathlib.Core.Logic.{◌≢◌}
use mathlib.Core.List.{[], ◌∷◌}
use native.Mathlib.Omega.{arith}
use agent_tunnel.Base.Tests.{ltb, if◌then◌else◌}
use agent_tunnel.Base.Text.{Text}
use agent_tunnel.Base.Bytes.{Bytes}

-- A code point, and the bytes behind it.
encode_code : ℕ → Bytes → Bytes
encode_code c rest =
    if ltb c 0x80
    then c ∷ rest
    else if ltb c 0x800
    then (0xc0 + c / 64) ∷ (0x80 + c % 64) ∷ rest
    else if ltb c 0x10000
    then (0xe0 + c / 4096) ∷ (0x80 + c / 64 % 64) ∷ (0x80 + c % 64) ∷ rest
    else (0xf0 + c / 262144)
      ∷ (0x80 + c / 4096 % 64)
      ∷ (0x80 + c / 64 % 64)
      ∷ (0x80 + c % 64)
      ∷ rest

unfoldable pub utf8 : Text → Bytes
unfolding encode_code
utf8 [] = []
utf8 (c ∷ s) = encode_code c (utf8 s)

encode_code-injective :
    (c d : ℕ) (s t : Bytes) → encode_code c s ≡ encode_code d t → (c ≡ d) × (s ≡ t)
unfolding encode_code
encode_code-injective c d s t e = ground arith

encode_code_ne : (c : ℕ) (s : Bytes) → encode_code c s ≢ []
unfolding encode_code
encode_code_ne c s e = ground arith

-- Different texts have different bytes.
pub utf8-injective : (s t : Text) → utf8 s ≡ utf8 t → s ≡ t
unfolding utf8
utf8-injective [] [] e = refl
utf8-injective [] (d ∷ t) e = absurd (encode_code_ne d (utf8 t) (sym e))
utf8-injective (c ∷ s) [] e = absurd (encode_code_ne c (utf8 s) e)
utf8-injective (c ∷ s) (d ∷ t) e =
    let (same, rest) = encode_code-injective c d (utf8 s) (utf8 t) e in
    cc (same, utf8-injective s t rest)
