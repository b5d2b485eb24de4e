-- ===== src/Base/Decimal.antt =====
-- The decimal form of a number, as fmt prints it, and where a text is split.
use Prim.Native.Nat.{ℕ, zero, suc, ◌+◌, ◌-◌, ◌*◌, ◌/◌, ◌%◌, ◌^◌, ◌<◌}
use mathlib.Core.Path.{◌≡◌, refl, sym, ap, ◌∙◌}
use mathlib.Core.Logic.{◌≢◌, inl, inr}
use mathlib.Core.List.{[], ◌∷◌, ◌++◌}
use native.Mathlib.Omega.{arith}
use agent_tunnel.Base.Tests.{ltb, if◌then◌else◌, nat_eq, Bool-cases}
use agent_tunnel.Base.Text.{Text}

decimal_fuel : ℕ → ℕ → Text
decimal_fuel zero n = []
decimal_fuel (suc fuel) n =
    let rest = decimal_fuel fuel (n / 10) in
    if ltb n 10 then (n + 48) ∷ [] else rest ++ (n % 10 + 48) ∷ []

-- `%d`: a number has fewer digits than its successor counts.
unfoldable pub decimal : ℕ → Text
unfolding decimal_fuel
decimal n = decimal_fuel (suc n) n

digits_value : ℕ → Text → ℕ
digits_value acc [] = acc
digits_value acc (c ∷ s) = digits_value (acc * 10 + (c - 48)) s

digits_value-concat :
    (acc : ℕ) (s : Text) (c : ℕ)
    → digits_value acc (s ++ c ∷ []) ≡ digits_value acc s * 10 + (c - 48)
unfolding digits_value
digits_value-concat acc [] c = refl
digits_value-concat acc (d ∷ s) c = digits_value-concat (acc * 10 + (d - 48)) s c

digits_value-decimal_fuel : (fuel n : ℕ) → n < fuel → digits_value 0 (decimal_fuel fuel n) ≡ n
unfolding decimal_fuel
digits_value-decimal_fuel zero n h = absurd (omega arith)
digits_value-decimal_fuel (suc fuel) n h = elim (Bool-cases (ltb n 10)) [
  | inl small ↦ rw small (unfold digits_value in omega arith)
  | inr large ↦ rw large (
      ground (
        arith,
        digits_value-concat 0 (decimal_fuel fuel (n / 10)) (n % 10 + 48),
        digits_value-decimal_fuel fuel (n / 10),
      ))
]

pub decimal-injective : (m n : ℕ) → decimal m ≡ decimal n → m ≡ n
unfolding decimal
decimal-injective m n h =
    sym (digits_value-decimal_fuel (suc m) m (omega arith))
    ∙ ap (digits_value 0) h
    ∙ digits_value-decimal_fuel (suc n) n (omega arith)

-- No character of the text is `c`.
abbrev pub Lacks : ℕ → Text → Type 0
Lacks c [] = Unit {0}
Lacks c (d ∷ s) = (d ≢ c) × Lacks c s

pub Lacks-append : (c : ℕ) (s t : Text) → Lacks c s → Lacks c t → Lacks c (s ++ t)
Lacks-append c [] t hs ht = ht
Lacks-append c (d ∷ s) t hs ht = (hs.0, Lacks-append c s t hs.1 ht)

decimal_fuel-Lacks :
    (c fuel n : ℕ) → ((d : ℕ) → d < 10 → d + 48 ≢ c) → Lacks c (decimal_fuel fuel n)
unfolding decimal_fuel
decimal_fuel-Lacks c zero n h = tt
decimal_fuel-Lacks c (suc fuel) n h = elim (Bool-cases (ltb n 10)) [
  | inl small ↦ rw small (h n (ground (arith, small)), tt)
  | inr large ↦ rw large (
      Lacks-append c (decimal_fuel fuel (n / 10)) _ (decimal_fuel-Lacks c fuel (n / 10) h)
        (h (n % 10) (omega arith), tt))
]

-- The decimal digits hold no character behind `9`, such as a colon.
pub decimal-Lacks : (c n : ℕ) → 57 < c → Lacks c (decimal n)
unfolding decimal
decimal-Lacks c n h =
    decimal_fuel-Lacks c (suc n) n (λ d less e. absurd (omega (arith, less, e, h)))

-- Nor one before `0`, such as a minus sign.
pub decimal-Lacks_low : (c n : ℕ) → c < 48 → Lacks c (decimal n)
unfolding decimal
decimal-Lacks_low c n h =
    decimal_fuel-Lacks c (suc n) n (λ d less e. absurd (omega (arith, less, e, h)))

-- The last digits of a number, with leading zeros.
unfoldable pub digits : ℕ → ℕ → Text
digits zero n = []
digits (suc width) n = (b'0' + (n / 10 ^ width) % 10) ∷ digits width n

-- A text is split at the first separator in one way.
pub split_at_first :
    (c : ℕ) (s s' t t' : Text)
    → Lacks c s
    → Lacks c s'
    → ◌≡◌ {A = Text} (s ++ c ∷ t) (s' ++ c ∷ t')
    → (s ≡ s') × (t ≡ t')
split_at_first c [] [] t t' h h' e = (refl, cc)
split_at_first c [] (d ∷ s') t t' h h' e = absurd (h'.0 (cc))
split_at_first c (d ∷ s) [] t t' h h' e = absurd (h.0 (cc))
split_at_first c (d ∷ s) (d' ∷ s') t t' h h' e =
    let (same, rest) = split_at_first c s s' t t' h.1 h'.1 (cc) in (cc, rest)
