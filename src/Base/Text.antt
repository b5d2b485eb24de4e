-- ===== src/Base/Text.antt =====
-- What the program uses of Go's `strings`, `strconv` and `fmt`, on texts as sequences of code points.
-- `to_lower` is exact on ASCII; it leaves the letters outside ASCII as they are.
use Prim.Native.Nat.{ℕ, ◌+◌}
use Prim.Native.Char.{code}
use Prim.Native.String.{String}
use mathlib.Core.Path.{◌≡◌, refl, ap, ◌∙◌}
use mathlib.Core.Logic.{◌≢◌}
use mathlib.Core.Bool.{Bool, true, false, not, ◌&&◌, ◌||◌}
use mathlib.Core.List.{List, [], ◌∷◌}
use native.Mathlib.Omega.{arith}
use native.Mathlib.Decide.{ℕ_discrete}
use agent_tunnel.Base.Tests.{Eq, ltb, leb, if◌then◌else◌, ◌==◌, nat_eq, decide}

abbrev pub Text : Type 0
Text = List ℕ

-- A literal.
abbrev pub codes : String → Text
codes String.[] = []
codes (String.◌∷◌ c s) = code c ∷ codes s

cons_discrete :
    (a b : ℕ) (s t : Text) → Dec (a ≡ b) → Dec (s ≡ t) → Dec (◌≡◌ {A = Text} (a ∷ s) (b ∷ t))
cons_discrete a b s t (no h) d = no (λ e. h (cc))
cons_discrete a b s t (yes p) (no h) = no (λ e. h (cc))
cons_discrete a b s t (yes p) (yes q) = yes (cc)

unfoldable pub Text-discrete : Discrete Text
unfolding cons_discrete ℕ_discrete
Text-discrete [] [] = yes refl
Text-discrete [] (b ∷ t) = no (λ e. cc)
Text-discrete (a ∷ s) [] = no (λ e. cc)
Text-discrete (a ∷ s) (b ∷ t) = cons_discrete a b s t (ℕ_discrete a b) (Text-discrete s t)

instance abbrev pub text_eq : Eq Text
text_eq = record { eq? = Text-discrete }

-- Two literals that evaluate to different texts are different.
pub ne_of_test : (s t : Text) → (s == t) ≡ false → s ≢ t
ne_of_test s t h e = ground (arith, e)

abbrev pub is_empty : Text → Bool
is_empty [] = true
is_empty (c ∷ s) = false

-- `<` on strings: UTF-8 bytes are ordered as the code points are.
unfoldable pub text_ltb : Text → Text → Bool
text_ltb s [] = false
text_ltb [] (b ∷ t) = true
text_ltb (a ∷ s) (b ∷ t) = let rest = text_ltb s t in ltb a b || (a == b && rest)

-- unicode.IsSpace
unfoldable pub is_space : ℕ → Bool
unfolding ℕ_discrete
is_space c =
    (leb 9 c && leb c 13)
    || decide (ℕ_discrete c 32)
    || decide (ℕ_discrete c 0x85)
    || decide (ℕ_discrete c 0xa0)
    || decide (ℕ_discrete c 0x1680)
    || (leb 0x2000 c && leb c 0x200a)
    || decide (ℕ_discrete c 0x2028)
    || decide (ℕ_discrete c 0x2029)
    || decide (ℕ_discrete c 0x202f)
    || decide (ℕ_discrete c 0x205f)
    || decide (ℕ_discrete c 0x3000)

trim_left : Text → Text
trim_left [] = []
trim_left (c ∷ s) = if is_space c then trim_left s else c ∷ s

trim_right : Text → Text
trim_right [] = []
trim_right (c ∷ s) = let rest = trim_right s in if is_space c && is_empty rest then [] else c ∷ rest

-- strings.TrimSpace
unfoldable pub trim : Text → Text
unfolding trim_left trim_right is_space
trim s = trim_right (trim_left s)

abbrev pub lower_code : ℕ → ℕ
lower_code c = if leb b'A' c && leb c b'Z' then c + 32 else c

-- strings.ToLower
unfoldable pub to_lower : Text → Text
to_lower [] = []
to_lower (c ∷ s) = lower_code c ∷ to_lower s

is_space-lower : (c : ℕ) → is_space (lower_code c) ≡ is_space c
unfolding is_space
is_space-lower c = ground arith

lower_code_idem : (c : ℕ) → lower_code (lower_code c) ≡ lower_code c
lower_code_idem c = ground arith

is_empty-to_lower : (s : Text) → is_empty (to_lower s) ≡ is_empty s
unfolding to_lower
is_empty-to_lower [] = refl
is_empty-to_lower (c ∷ s) = refl

trim_left_idem : (s : Text) → trim_left (trim_left s) ≡ trim_left s
unfolding trim_left
trim_left_idem [] = refl
trim_left_idem (c ∷ s) = ground (arith, trim_left_idem s)

trim_right_idem : (s : Text) → trim_right (trim_right s) ≡ trim_right s
unfolding trim_right
trim_right_idem [] = refl
trim_right_idem (c ∷ s) = ground (arith, trim_right_idem s)

-- Trimming the right end of a text that starts with no space leaves one that starts with none.
starts_clean : Text → Bool
starts_clean [] = true
starts_clean (c ∷ s) = not (is_space c)

starts_clean-trim_left : (s : Text) → starts_clean (trim_left s) ≡ true
unfolding starts_clean trim_left
starts_clean-trim_left [] = refl
starts_clean-trim_left (c ∷ s) = ground (arith, starts_clean-trim_left s)

starts_clean-trim_right : (s : Text) → starts_clean s ≡ true → starts_clean (trim_right s) ≡ true
unfolding starts_clean trim_right
starts_clean-trim_right [] h = refl
starts_clean-trim_right (c ∷ s) h = ground arith

trim_left_clean : (s : Text) → starts_clean s ≡ true → trim_left s ≡ s
unfolding starts_clean trim_left
trim_left_clean [] h = refl
trim_left_clean (c ∷ s) h = ground arith

pub trim_idem : (s : Text) → trim (trim s) ≡ trim s
unfolding trim
trim_idem s =
    ap trim_right (
      trim_left_clean (trim_right (trim_left s))
        (starts_clean-trim_right (trim_left s) (starts_clean-trim_left s)))
    ∙ trim_right_idem (trim_left s)

-- No character is a space.
abbrev pub IsSolid : Text → Type 0
IsSolid [] = Unit {0}
IsSolid (c ∷ s) = (is_space c ≡ false) × IsSolid s

trim_left-IsSolid : (s : Text) → IsSolid s → trim_left s ≡ s
unfolding trim_left
trim_left-IsSolid [] h = refl
trim_left-IsSolid (c ∷ s) h = ground (arith, h.0)

trim_right-IsSolid : (s : Text) → IsSolid s → trim_right s ≡ s
unfolding trim_right
trim_right-IsSolid [] h = refl
trim_right-IsSolid (c ∷ s) h = ground (arith, h.0, trim_right-IsSolid s h.1)

pub trim-IsSolid : (s : Text) → IsSolid s → trim s ≡ s
unfolding trim
trim-IsSolid s h = ap trim_right (trim_left-IsSolid s h) ∙ trim_right-IsSolid s h

pub trim-nil : trim [] ≡ []
unfolding trim
trim-nil = refl

trim_left-to_lower : (s : Text) → trim_left (to_lower s) ≡ to_lower (trim_left s)
unfolding trim_left to_lower
trim_left-to_lower [] = refl
trim_left-to_lower (c ∷ s) = ground (arith, trim_left-to_lower s, is_space-lower c)

trim_right-to_lower : (s : Text) → trim_right (to_lower s) ≡ to_lower (trim_right s)
unfolding trim_right to_lower
trim_right-to_lower [] = refl
trim_right-to_lower (c ∷ s) =
    ground (arith, trim_right-to_lower s, is_space-lower c, is_empty-to_lower (trim_right s))

pub trim-to_lower : (s : Text) → trim (to_lower s) ≡ to_lower (trim s)
unfolding trim
trim-to_lower s = ap trim_right (trim_left-to_lower s) ∙ trim_right-to_lower (trim_left s)

pub to_lower_idem : (s : Text) → to_lower (to_lower s) ≡ to_lower s
unfolding to_lower
to_lower_idem [] = refl
to_lower_idem (c ∷ s) = cc (lower_code_idem c, to_lower_idem s)
