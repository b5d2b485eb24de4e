-- ===== src/Base/Tests.antt =====
-- Boolean tests on numbers and by decidable equality, the conditional, and case lemmas.
use Prim.Native.Nat.{ℕ, compare, Ordering}
use Prim.Native.String.{String}
use text.Mathlib.Text.{◌==◌ as str_eq}
use text.Mathlib.TextEquality.{eq_iff}
use mathlib.Core.Path.{◌≡◌, refl}
use mathlib.Core.Logic.{◌⊎◌, inl, inr}
use mathlib.Core.Bool.{Bool, true, false}
use mathlib.Core.Option.{Option, none, some}
use native.Mathlib.Decide.{ℕ_discrete}

abbrev pub ltb : ℕ → ℕ → Bool
ltb a b = elim (compare a b) [ Ordering.lt ↦ true | _ ↦ false ]

abbrev pub leb : ℕ → ℕ → Bool
leb a b = elim (compare a b) [ Ordering.gt ↦ false | _ ↦ true ]

infix 1 if◌then◌else◌
abbrev pub if◌then◌else◌ {ℓ} : {A : Type ℓ} → Bool → A → A → A
if true then x else y = x
if false then x else y = y

pub Bool-cases : (b : Bool) → (b ≡ true) ⊎ (b ≡ false)
Bool-cases true = inl refl
Bool-cases false = inr refl

pub Option-cases {ℓ} : {A : Type ℓ} (o : Option A) → (o ≡ none) ⊎ ((a : A) × (o ≡ some a))
Option-cases none = inl refl
Option-cases (some a) = inr (a, refl)

-- Go's `==` on a comparable type, as a decision of equality.
pub record Eq {ℓ} (A : Type ℓ) : Type ℓ where
  pub eq? : Discrete A

abbrev pub decide {ℓ} : {P : Type ℓ} → Dec P → Bool
decide (yes p) = true
decide (no p) = false

infix 50 ◌==◌
abbrev pub ◌==◌ {ℓ} : {A : Type ℓ} ⦃e : Eq A⦄ → A → A → Bool
◌==◌ ⦃e⦄ a b = decide (e.eq? a b)

String-decision : (s t : String) (b : Bool) → str_eq s t ≡ b → Dec (s ≡ t)
String-decision s t true h = yes ((eq_iff s t).0 h)
String-decision s t false h = no (λ p. cc (h, (eq_iff s t).1 p))

unfoldable pub String-discrete : Discrete String
unfolding String-decision
String-discrete s t = String-decision s t (str_eq s t) refl

instance abbrev pub nat_eq : Eq ℕ
nat_eq = record { eq? = ℕ_discrete }

instance abbrev pub string_eq : Eq String
string_eq = record { eq? = String-discrete }
