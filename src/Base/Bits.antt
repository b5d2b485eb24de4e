-- ===== src/Base/Bits.antt =====
-- `|` with a high field and `&` with a low mask, as arithmetic, at every width.
use Prim.Native.Nat.{bit_and, bit_or, bit_and-bitwise, bit_or-bitwise, digits, min, max}
use Prim.Native.Nat.{ℕ, zero, suc, ◌+◌, ◌-◌, ◌*◌, ◌/◌, ◌^◌, ◌≤◌, ◌<◌}
use mathlib.Core.Path.{◌≡◌, refl, ap, ◌∙◌}
use native.Mathlib.Nat.{pow-suc}
use native.Mathlib.Omega.{arith}

double_field : (q k : ℕ) → q * 2 ^ suc k ≡ 2 * (q * 2 ^ k)
double_field q k = omega (arith, ap (λ (t : ℕ). q * t) (pow-suc 2 k))

-- The recursion on digits, over a count of digits that the first number does not exceed.
or_digits : (n k q r : ℕ) → r ≤ n → r < 2 ^ k → digits (λ b. b) max n r (q * 2 ^ k) ≡ q * 2 ^ k + r
or_digits zero k q zero h fits = omega arith
or_digits zero k q (suc r) h fits = absurd (omega arith)
or_digits (suc n) k q zero h fits = omega arith
or_digits (suc n) zero q (suc r) h fits = absurd (omega arith)
or_digits (suc n) (suc k) q (suc r) h fits =
    ground (arith, double_field q k, pow-suc 2 k, or_digits n k q (suc r / 2))

and_digits :
    (n k q r a : ℕ)
    → a ≤ n
    → a ≡ q * 2 ^ k + r
    → r < 2 ^ k
    → digits (λ b. 0) min n a (2 ^ k - 1) ≡ r
and_digits zero k q r zero h e fits = omega arith
and_digits zero k q r (suc a) h e fits = absurd (omega arith)
and_digits (suc n) k q r zero h e fits = omega arith
and_digits (suc n) zero q r (suc a) h e fits =
    ground (arith, and_digits n zero (suc a / 2) 0 (suc a / 2))
and_digits (suc n) (suc k) q r (suc a) h e fits =
    ground (arith, double_field q k, pow-suc 2 k, and_digits n k q (r / 2) (suc a / 2))

-- A value below `2 ^ k` or-ed with a field above it is their sum.
pub bit_or_field : (k q r : ℕ) → r < 2 ^ k → bit_or r (q * 2 ^ k) ≡ q * 2 ^ k + r
bit_or_field k q r fits = bit_or-bitwise r (q * 2 ^ k) ∙ or_digits r k q r (omega arith) fits

-- A mask of `k` low ones takes away what stands above them.
pub bit_and_field : (k q r : ℕ) → r < 2 ^ k → bit_and (q * 2 ^ k + r) (2 ^ k - 1) ≡ r
bit_and_field k q r fits =
    bit_and-bitwise (q * 2 ^ k + r) (2 ^ k - 1)
    ∙ and_digits (q * 2 ^ k + r) k q r (q * 2 ^ k + r) (omega arith) refl fits
