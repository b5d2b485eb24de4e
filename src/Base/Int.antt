-- ===== src/Base/Int.antt =====
-- Go's signed integers, where the program tests their sign.
use Prim.Native.Nat.{ℕ, zero, suc}
use mathlib.Core.Path.{◌≡◌, sym, ap}
use mathlib.Core.Logic.{◌≢◌}
use mathlib.Core.Bool.{Bool, true, false}
use mathlib.Core.List.{[], ◌∷◌}
use native.Mathlib.Omega.{arith}
use native.Mathlib.Decide.{ℕ_discrete}
use agent_tunnel.Base.Tests.{Eq, leb}
use agent_tunnel.Base.Text.{Text}
use agent_tunnel.Base.Decimal.{decimal, decimal-injective, Lacks, decimal-Lacks_low}

-- `negsuc n` is -(n + 1).
pub data ℤ : Type 0 where
  pos : ℕ → ℤ
  negsuc : ℕ → ℤ

-- The value of a positive number, and `d` for the others: `if n <= 0 { n = d }`.
abbrev pub positive_or : ℕ → ℤ → ℕ
positive_or d (pos zero) = d
positive_or d (pos (suc n)) = suc n
positive_or d (negsuc n) = d

-- `if n < 0 { n = 0 }`
abbrev pub non_negative : ℤ → ℕ
non_negative (pos n) = n
non_negative (negsuc n) = 0

-- strconv.FormatInt(n, 10)
unfoldable pub format_int : ℤ → Text
format_int (pos n) = decimal n
format_int (negsuc n) = b'-' ∷ decimal (suc n)

no_minus : (s t : Text) → Lacks b'-' s → s ≢ b'-' ∷ t
no_minus [] t h e = cc e
no_minus (c ∷ s) t h e = h.0 (cc e)

pub format_int-injective : (a b : ℤ) → format_int a ≡ format_int b → a ≡ b
unfolding format_int
format_int-injective (pos m) (pos n) e = ap pos (decimal-injective m n e)
format_int-injective (pos m) (negsuc n) e =
    absurd (no_minus (decimal m) (decimal (suc n)) (decimal-Lacks_low b'-' m (omega arith)) e)
format_int-injective (negsuc m) (pos n) e =
    absurd (no_minus (decimal n) (decimal (suc m)) (decimal-Lacks_low b'-' n (omega arith)) (sym e))
format_int-injective (negsuc m) (negsuc n) e =
    let same : suc m ≡ suc n = decimal-injective (suc m) (suc n) (cc e) in
    ap negsuc (omega (arith, same))

-- a <= b
abbrev pub leb_int : ℤ → ℤ → Bool
leb_int (pos a) (pos b) = leb a b
leb_int (pos a) (negsuc b) = false
leb_int (negsuc a) (pos b) = true
leb_int (negsuc a) (negsuc b) = leb b a

ℤ_decision_pos : (a b : ℕ) → Dec (a ≡ b) → Dec (pos a ≡ pos b)
ℤ_decision_pos a b (yes p) = yes (ap pos p)
ℤ_decision_pos a b (no h) = no (λ e. h (cc e))

ℤ_decision_negsuc : (a b : ℕ) → Dec (a ≡ b) → Dec (negsuc a ≡ negsuc b)
ℤ_decision_negsuc a b (yes p) = yes (ap negsuc p)
ℤ_decision_negsuc a b (no h) = no (λ e. h (cc e))

unfoldable pub ℤ-discrete : Discrete ℤ
unfolding ℤ_decision_pos ℤ_decision_negsuc ℕ_discrete
ℤ-discrete (pos a) (pos b) = ℤ_decision_pos a b (ℕ_discrete a b)
ℤ-discrete (pos a) (negsuc b) = no (λ e. cc e)
ℤ-discrete (negsuc a) (pos b) = no (λ e. cc e)
ℤ-discrete (negsuc a) (negsuc b) = ℤ_decision_negsuc a b (ℕ_discrete a b)

instance abbrev pub int_eq : Eq ℤ
int_eq = record { eq? = ℤ-discrete }
