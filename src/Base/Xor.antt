-- ===== src/Base/Xor.antt =====
-- Exclusive or of the binary digits of two numbers.
use Prim.Native.Nat.{bit_xor, bit_xor-bitwise, digits, differ}
use Prim.Native.Nat.{ℕ, zero, suc, ◌+◌, ◌*◌, ◌/◌, ◌%◌, ◌^◌, ◌≤◌, ◌<◌}
use mathlib.Core.Path.{◌≡◌, refl, sym, ap, ◌∙◌}
use native.Mathlib.Nat.{pow-suc}
use native.Mathlib.Omega.{arith}

abbrev run : ℕ → ℕ → ℕ → ℕ
run n a k = digits (λ b. b) differ n a k

-- More fuel than the first number changes nothing.
run-fuel : (n m a k : ℕ) → a ≤ n → a ≤ m → run n a k ≡ run m a k
run-fuel zero zero a k h g = refl
run-fuel zero (suc m) zero k h g = refl
run-fuel zero (suc m) (suc a) k h g = absurd (omega arith)
run-fuel (suc n) zero zero k h g = refl
run-fuel (suc n) zero (suc a) k h g = absurd (omega arith)
run-fuel (suc n) (suc m) zero k h g = refl
run-fuel (suc n) (suc m) (suc a) k h g =
    ap (λ x. x * 2 + differ (suc a % 2) (k % 2))
      (run-fuel n m (suc a / 2) (k / 2) (omega arith) (omega arith))

-- Digit by digit.
xor-digits : (a k : ℕ) → bit_xor a k ≡ bit_xor (a / 2) (k / 2) * 2 + differ (a % 2) (k % 2)
xor-digits zero k =
    let step : k ≡ k / 2 * 2 + k % 2 = omega arith in
    bit_xor-bitwise 0 k ∙ step ∙ ap (λ x. x * 2 + k % 2) (sym (bit_xor-bitwise 0 (k / 2)))
xor-digits (suc a) k =
    bit_xor-bitwise (suc a) k
    ∙ ap (λ x. x * 2 + differ (suc a % 2) (k % 2))
        (run-fuel a (suc a / 2) (suc a / 2) (k / 2) (omega arith) (omega arith)
          ∙ sym (bit_xor-bitwise (suc a / 2) (k / 2)))

differ_lt : (x y : ℕ) → x < 2 → y < 2 → differ x y < 2
differ_lt zero y h g = g
differ_lt (suc x) zero h g = h
differ_lt (suc x) (suc y) h g = differ_lt x y (omega arith) (omega arith)

differ_twice : (x y : ℕ) → x < 2 → y < 2 → differ (differ x y) y ≡ x
differ_twice zero zero h g = refl
differ_twice zero (suc zero) h g = refl
differ_twice zero (suc (suc y)) h g = absurd (omega arith)
differ_twice (suc zero) zero h g = refl
differ_twice (suc zero) (suc zero) h g = refl
differ_twice (suc zero) (suc (suc y)) h g = absurd (omega arith)
differ_twice (suc (suc x)) y h g = absurd (omega arith)

low_bit : (n : ℕ) → n % 2 < 2
low_bit n = omega arith

-- The parts of a number that ends in a given digit.
parts : (n q b : ℕ) → n ≡ q * 2 + b → b < 2 → (n / 2 ≡ q) × (n % 2 ≡ b)
parts n q b e h = (omega arith, omega arith)

xor-halves :
    (a k : ℕ)
    → (bit_xor a k / 2 ≡ bit_xor (a / 2) (k / 2)) × (bit_xor a k % 2 ≡ differ (a % 2) (k % 2))
xor-halves a k =
    parts (bit_xor a k) (bit_xor (a / 2) (k / 2)) (differ (a % 2) (k % 2)) (xor-digits a k)
      (differ_lt (a % 2) (k % 2) (low_bit a) (low_bit k))

xor_twice_upto : (n a k : ℕ) → a ≤ n → k ≤ n → bit_xor (bit_xor a k) k ≡ a
xor_twice_upto zero zero zero h g = refl
xor_twice_upto zero zero (suc k) h g = absurd (omega arith)
xor_twice_upto zero (suc a) k h g = absurd (omega arith)
xor_twice_upto (suc n) a k h g =
    let (high, low) = xor-halves a k in
    let rest : bit_xor (bit_xor (a / 2) (k / 2)) (k / 2) ≡ a / 2 =
      xor_twice_upto n (a / 2) (k / 2) (omega arith) (omega arith) in
    let bit : differ (differ (a % 2) (k % 2)) (k % 2) ≡ a % 2 =
      differ_twice (a % 2) (k % 2) (low_bit a) (low_bit k) in
    let whole : a / 2 * 2 + a % 2 ≡ a = omega arith in
    xor-digits (bit_xor a k) k
    ∙ ap (λ x. bit_xor x (k / 2) * 2 + differ (bit_xor a k % 2) (k % 2)) high
    ∙ ap (λ x. x * 2 + differ (bit_xor a k % 2) (k % 2)) rest
    ∙ ap (λ x. a / 2 * 2 + differ x (k % 2)) low
    ∙ ap (λ x. a / 2 * 2 + x) bit
    ∙ whole

-- The same mask twice gives back the number.
pub xor_twice : (a k : ℕ) → bit_xor (bit_xor a k) k ≡ a
xor_twice a k = xor_twice_upto (a + k) a k (omega arith) (omega arith)

-- The width does not grow.
pub xor_lt : (n a k : ℕ) → a < 2 ^ n → k < 2 ^ n → bit_xor a k < 2 ^ n
xor_lt zero zero zero h g = omega arith
xor_lt zero zero (suc k) h g = absurd (omega arith)
xor_lt zero (suc a) k h g = absurd (omega arith)
xor_lt (suc n) a k h g =
    let two = pow-suc 2 n in
    let rest = xor_lt n (a / 2) (k / 2) (omega (arith, two)) (omega (arith, two)) in
    omega (arith, two, rest, xor-digits a k, differ_lt (a % 2) (k % 2) (low_bit a) (low_bit k))
