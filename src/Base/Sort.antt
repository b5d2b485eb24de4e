-- ===== src/Base/Sort.antt =====
-- sort.Slice and sort.Strings, as the insertion sort that leaves equal elements in their order.
use mathlib.Core.Bool.{Bool}
use mathlib.Core.List.{List, [], ◌∷◌}
use mathlib.Core.Logic.{inl, inr}
use agent_tunnel.Base.Tests.{if◌then◌else◌, Bool-cases}
use agent_tunnel.Base.Lists.{All, Any, here, there}

module _ {ℓ} {A : Type ℓ} (before : A → A → Bool) where
  unfoldable pub place : A → List A → List A
  place d [] = d ∷ []
  place d (x ∷ xs) = let rest = place d xs in if before x d then x ∷ rest else d ∷ x ∷ xs

  unfoldable pub sort : List A → List A
  sort [] = []
  sort (d ∷ ds) = place d (sort ds)

module _ {ℓ κ} {A : Type ℓ} (before : A → A → Bool) (P : A → Type κ) where
  pub place-All : (d : A) (xs : List A) → P d → All P xs → All P (place before d xs)
  unfolding place
  place-All d [] p h = (p, tt)
  place-All d (x ∷ xs) p (q, h) = elim (Bool-cases (before x d)) [
    | inl e ↦ rw e (q, place-All d xs p h)
    | inr e ↦ rw e (p, (q, h))
  ]

  pub sort-All : (xs : List A) → All P xs → All P (sort before xs)
  unfolding sort
  sort-All [] h = tt
  sort-All (x ∷ xs) (p, h) = place-All x (sort before xs) p (sort-All xs h)

  place_self-Any : (d : A) (xs : List A) → P d → Any P (place before d xs)
  unfolding place
  place_self-Any d [] p = here d [] p
  place_self-Any d (x ∷ xs) p = elim (Bool-cases (before x d)) [
    | inl e ↦ rw e (there x _ (place_self-Any d xs p))
    | inr e ↦ rw e (here d (x ∷ xs) p)
  ]

  place-Any : (d : A) (xs : List A) → Any P xs → Any P (place before d xs)
  unfolding place
  place-Any d _ (here x xs p) = elim (Bool-cases (before x d)) [
    | inl e ↦ rw e (here x _ p)
    | inr e ↦ rw e (there d (x ∷ xs) (here x xs p))
  ]
  place-Any d _ (there x xs h) = elim (Bool-cases (before x d)) [
    | inl e ↦ rw e (there x _ (place-Any d xs h))
    | inr e ↦ rw e (there d (x ∷ xs) (there x xs h))
  ]

  pub sort-Any : (xs : List A) → Any P xs → Any P (sort before xs)
  unfolding sort
  sort-Any _ (here x xs p) = place_self-Any x (sort before xs) p
  sort-Any _ (there x xs h) = place-Any x (sort before xs) (sort-Any xs h)
