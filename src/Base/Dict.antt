-- ===== src/Base/Dict.antt =====
-- Go's maps as association lists. A later entry with the key of an earlier one counts for nothing,
-- so the laws below need no invariant. The order of a `range` loop is the order of the list.
use Prim.Native.Nat.{ℕ, suc, ◌≤◌}
use mathlib.Core.Path.{◌≡◌, refl}
use mathlib.Core.Logic.{inl, inr}
use mathlib.Core.Bool.{Bool, true, false, not, ◌&&◌}
use mathlib.Core.Option.{Option, none, some}
use mathlib.Core.List.{List, [], ◌∷◌, ◌++◌}
use native.Mathlib.Omega.{arith}
use agent_tunnel.Base.Lists.{All, All-map}
use agent_tunnel.Base.Tests.{Eq, ◌==◌, if◌then◌else◌, Bool-cases}

abbrev pub Dict {ℓ κ} : Type κ → Type ℓ → Type (κ ⊔ ℓ)
Dict K V = List (K × V)

abbrev pub filter_option {ℓ} : {V : Type ℓ} → (V → Bool) → Option V → Option V
filter_option p none = none
filter_option p (some v) = if p v then some v else none

module _ {ℓ κ} {K : Type κ} {V : Type ℓ} where
  -- The values in the order of the list.
  abbrev pub values : Dict K V → List V
  values [] = []
  values ((k, v) ∷ m) = v ∷ values m

  -- The values of the entries that pass a test.
  unfoldable pub select : (K → V → Bool) → Dict K V → List V
  select p [] = []
  select p ((k, v) ∷ m) = let rest = select p m in if p k v then v ∷ rest else rest

  -- The entries that pass a test.
  unfoldable pub pick : (K → V → Bool) → Dict K V → List (K × V)
  pick p [] = []
  pick p ((k, v) ∷ m) = let rest = pick p m in if p k v then (k, v) ∷ rest else rest

  -- The first entry that passes a test.
  unfoldable pub find : (V → Bool) → Dict K V → Option (K × V)
  find p [] = none
  find p ((k, v) ∷ m) = let rest = find p m in if p v then some (k, v) else rest

  pub find_sound :
      (p : V → Bool) (m : Dict K V) (k : K) (v : V) → find p m ≡ some (k, v) → p v ≡ true
  unfolding find
  find_sound p [] k v h = cc
  find_sound p ((j, w) ∷ m) k v h = ground (arith, find_sound p m k v)

-- A loop over the entries that changes a state and lists what it does outside.
module _ {ℓ κ μ ν} {K : Type κ} {V : Type ℓ} {S : Type μ} {E : Type ν} where
  unfoldable pub for_each : (K → V → S → S × List E) → Dict K V → S → S × List E
  for_each body [] s = (s, [])
  for_each body ((k, v) ∷ m) s =
      let (next, effects) = body k v s in
      let (last, others) = for_each body m next in (last, effects ++ others)

  -- A loop keeps what each round keeps.
  pub for_each-kept {ρ} :
      (P : S → Type ρ) (body : K → V → S → S × List E)
      → ((k : K) (v : V) (s : S) → P s → P (body k v s).0)
      → (m : Dict K V) (s : S) → P s
      → P (for_each body m s).0
  unfolding for_each
  for_each-kept P body keeps [] s h = h
  for_each-kept P body keeps ((k, v) ∷ m) s h =
      for_each-kept P body keeps m (body k v s).0 (keeps k v s h)

module _ {ℓ κ} {K : Type κ} {V : Type ℓ} ⦃e : Eq K⦄ where
  unfoldable pub lookup : K → Dict K V → Option V
  lookup k [] = none
  lookup k ((j, v) ∷ m) = if j == k then some v else lookup k m

  -- delete(m, k)
  unfoldable pub delete : K → Dict K V → Dict K V
  delete k [] = []
  delete k ((j, v) ∷ m) = let rest = delete k m in if j == k then rest else (j, v) ∷ rest

  -- m[k] = v
  unfoldable pub insert : K → V → Dict K V → Dict K V
  insert k v m = (k, v) ∷ delete k m

  -- A loop over the map that deletes the entries which fail the test.
  unfoldable pub retain : (K → V → Bool) → Dict K V → Dict K V
  retain p [] = []
  retain p ((k, v) ∷ m) = let rest = retain p m in if p k v then (k, v) ∷ rest else delete k rest

  unfoldable pub has : K → Dict K V → Bool
  has k m = elim (lookup k m) [ none ↦ false | some v ↦ true ]

  -- How many entries pass a test.
  unfoldable pub count : (K → V → Bool) → Dict K V → ℕ
  count p [] = 0
  count p ((k, v) ∷ m) = let rest = count p m in if p k v then suc rest else rest

  pub lookup-delete :
      (k j : K) (m : Dict K V) → lookup j (delete k m) ≡ (if k == j then none else lookup j m)
  unfolding lookup delete
  lookup-delete k j [] = ground arith
  lookup-delete k j ((i, v) ∷ m) = ground (arith, lookup-delete k j m)

  delete-delete : (k : K) (m : Dict K V) → delete k (delete k m) ≡ delete k m
  unfolding delete
  delete-delete k [] = refl
  delete-delete k ((j, v) ∷ m) = ground (arith, delete-delete k m)

  -- The last write counts.
  pub insert-insert : (k : K) (v w : V) (m : Dict K V) → insert k v (insert k w m) ≡ insert k v m
  unfolding insert delete
  insert-insert k v w m = ground (arith, delete-delete k m)

  pub lookup-insert :
      (k j : K) (v : V) (m : Dict K V)
      → lookup j (insert k v m) ≡ (if k == j then some v else lookup j m)
  unfolding lookup insert
  lookup-insert k j v m = ground (arith, lookup-delete k j m)

  pub lookup-insert_self : (k : K) (v : V) (m : Dict K V) → lookup k (insert k v m) ≡ some v
  lookup-insert_self k v m = ground (arith, lookup-insert k k v m)

  pub lookup-retain :
      (p : K → V → Bool) (j : K) (m : Dict K V)
      → lookup j (retain p m) ≡ filter_option (p j) (lookup j m)
  unfolding lookup retain
  lookup-retain p j [] = refl
  lookup-retain p j ((k, v) ∷ m) =
      ground (arith, lookup-retain p j m, lookup-delete k j (retain p m))

  pub count-delete_le : (p : K → V → Bool) (k : K) (m : Dict K V) → count p (delete k m) ≤ count p m
  unfolding count delete
  count-delete_le p k [] = omega arith
  count-delete_le p k ((j, v) ∷ m) = ground (arith, count-delete_le p k m)

  -- Deleting a key leaves at most the entries that are counted under the other keys.
  pub count-delete_other :
      (p : K → V → Bool) (k : K) (m : Dict K V)
      → count p (delete k m) ≤ count (λ j v. not (j == k) && p j v) m
  unfolding count delete
  count-delete_other p k [] = omega arith
  count-delete_other p k ((j, v) ∷ m) = ground (arith, count-delete_other p k m)

  pub count-insert_le :
      (p : K → V → Bool) (k : K) (v : V) (m : Dict K V)
      → count p (insert k v m) ≤ suc (count (λ j w. not (j == k) && p j w) m)
  unfolding count insert
  count-insert_le p k v m = ground (arith, count-delete_other p k m)

  pub count-insert_miss :
      (p : K → V → Bool) (k : K) (v : V) (m : Dict K V)
      → p k v ≡ false
      → count p (insert k v m) ≤ count p m
  unfolding count insert
  count-insert_miss p k v m h = ground (arith, count-delete_le p k m)

  pub count-retain_le : (p q : K → V → Bool) (m : Dict K V) → count p (retain q m) ≤ count p m
  unfolding count retain
  count-retain_le p q [] = omega arith
  count-retain_le p q ((k, v) ∷ m) =
      ground (arith, count-retain_le p q m, count-delete_le p k (retain q m))

  -- No key stands twice.
  abbrev pub Distinct : Dict K V → Type (κ ⊔ ℓ)
  Distinct [] = Unit
  Distinct ((k, v) ∷ m) = (lookup k m ≡ none) × Distinct m

  pub delete-Distinct : (k : K) (m : Dict K V) → Distinct m → Distinct (delete k m)
  unfolding delete
  delete-Distinct k [] h = tt
  delete-Distinct k ((j, v) ∷ m) h = ground (arith, delete-Distinct k m h.1, lookup-delete k j m)

  pub insert-Distinct : (k : K) (v : V) (m : Dict K V) → Distinct m → Distinct (insert k v m)
  unfolding insert
  insert-Distinct k v m h = (ground (arith, lookup-delete k k m), delete-Distinct k m h)

  -- An entry in its place may be changed with no change to the count.
  count-delete_found :
      (p : K → V → Bool) (k : K) (w : V) (m : Dict K V)
      → lookup k m ≡ some w
      → p k w ≡ true
      → suc (count p (delete k m)) ≤ count p m
  unfolding count delete lookup
  count-delete_found p k w [] h t = cc
  count-delete_found p k w ((j, v) ∷ m) h t =
      ground (arith, count-delete_found p k w m, count-delete_le p k m)

  pub count-update_le :
      (p : K → V → Bool) (k : K) (w v : V) (m : Dict K V)
      → lookup k m ≡ some w
      → p k v ≡ p k w
      → count p (insert k v m) ≤ count p m
  unfolding count insert
  count-update_le p k w v m h t =
      ground (arith, count-delete_found p k w m h, count-delete_le p k m)

  lookup-tail :
      (j k : K) (w v : V) (m : Dict K V)
      → lookup j m ≡ none
      → lookup k m ≡ some v
      → lookup k ((j, w) ∷ m) ≡ some v
  unfolding lookup
  lookup-tail j k w v m h t = ground arith

  lookup-head : (j : K) (w : V) (m : Dict K V) → lookup j ((j, w) ∷ m) ≡ some w
  unfolding lookup
  lookup-head j w m = ground arith

  -- What a loop over the map visits is in the map.
  pub select-found :
      (p : K → V → Bool) (m : Dict K V)
      → Distinct m
      → All (λ v. (k : K) × (lookup k m ≡ some v) × (p k v ≡ true)) (select p m)
  unfolding select
  select-found p [] d = tt
  select-found p ((j, w) ∷ m) d =
      let rest =
        All-map (λ v. (k : K) × (lookup k m ≡ some v) × (p k v ≡ true))
          (λ v. (k : K) × (lookup k ((j, w) ∷ m) ≡ some v) × (p k v ≡ true))
          (λ v h. (h.0, lookup-tail j h.0 w v m d.0 h.1, h.2)) (select p m)
          (select-found p m d.1) in
      elim (Bool-cases (p j w)) [
        | inl e ↦ rw e ((j, lookup-head j w m, e), rest)
        | inr e ↦ rw e rest
      ]
