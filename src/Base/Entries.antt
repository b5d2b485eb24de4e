-- ===== src/Base/Entries.antt =====
-- A predicate that holds of every entry of a map.
use mathlib.Core.Path.{◌≡◌, subst}
use mathlib.Core.Bool.{Bool}
use mathlib.Core.Option.{some}
use mathlib.Core.List.{[], ◌∷◌}
use mathlib.Core.Logic.{inl, inr}
use native.Mathlib.Omega.{arith}
use agent_tunnel.Base.Tests.{Eq, ◌==◌, Bool-cases}
use agent_tunnel.Base.Lists.{All}
use agent_tunnel.Base.Dict.{Dict, lookup, insert, delete, find}

module _ {ℓ κ ρ} {K : Type κ} {V : Type ℓ} (P : K × V → Type ρ) where
  pub find-All :
      (p : V → Bool) (m : Dict K V) (k : K) (v : V) → All P m → find p m ≡ some (k, v) → P (k, v)
  unfolding find
  find-All p [] k v h e = cc
  find-All p ((j, w) ∷ m) k v (q, h) e = elim (Bool-cases (p w)) [
    | inl t ↦ subst P (cc (rw t at e)) q
    | inr f ↦ find-All p m k v h (rw f at e)
  ]

module _ {ℓ κ ρ} {K : Type κ} {V : Type ℓ} ⦃e : Eq K⦄ (P : K × V → Type ρ) where
  pub delete-All : (k : K) (m : Dict K V) → All P m → All P (delete k m)
  unfolding delete
  delete-All k [] h = tt
  delete-All k ((j, v) ∷ m) (p, h) = elim (Bool-cases (j == k)) [
    | inl t ↦ rw t (delete-All k m h)
    | inr f ↦ rw f (p, delete-All k m h)
  ]

  pub insert-All : (k : K) (v : V) (m : Dict K V) → P (k, v) → All P m → All P (insert k v m)
  unfolding insert
  insert-All k v m p h = (p, delete-All k m h)

  -- The key that is found is the key that was sought.
  pub lookup-All : (k : K) (m : Dict K V) (v : V) → All P m → lookup k m ≡ some v → P (k, v)
  unfolding lookup
  lookup-All k [] v h t = cc
  lookup-All k ((j, w) ∷ m) v (p, h) t = elim (Bool-cases (j == k)) [
    | inl s ↦ subst P (ground (arith, s, t)) p
    | inr f ↦ lookup-All k m v h (rw f at t)
  ]
