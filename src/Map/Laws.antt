-- ===== src/Map/Laws.antt =====
-- The laws of the maps: what a read sees after a write, and sums and sizes.
use blockz.Prelude.{
  ℕ, ◌+◌, ◌≡◌, refl, false, [], ◌∷◌, Option, none, some, ◌=?◌, if◌then◌else◌, arith, beq_refl, inl,
  inr, ◌≤◌, ◌++◌, Option-cases,
}
use blockz.Prelude.Equality.{Eq}
use blockz.Map.Defs.{Map, lookup, insert, delete, sum_by, update, rebuild}

abbrev pub value_of {ℓ} : {V : Type ℓ} → (V → ℕ) → Option V → ℕ
value_of f none = 0
value_of f (some v) = f v

module _ {ℓ} {K V : Type ℓ} ⦃e : Eq K⦄ where
  pub lookup-insert :
      (k j : K) (v : V) (m : Map K V)
      → lookup j (insert k v m) ≡ (if k =? j then some v else lookup j m)
  unfolding lookup insert
  lookup-insert k j v [] = refl
  lookup-insert k j v ((i, w) ∷ m) =
      ground (arith, e.beq_iff k j, e.beq_iff i k, e.beq_iff i j, lookup-insert k j v m)

  pub lookup-insert_self : (k : K) (v : V) (m : Map K V) → lookup k (insert k v m) ≡ some v
  lookup-insert_self k v m = rw (lookup-insert k k v m, beq_refl k)

  pub lookup-insert_ne :
      (k j : K) (v : V) (m : Map K V) → (k =? j) ≡ false → lookup j (insert k v m) ≡ lookup j m
  lookup-insert_ne k j v m h = rw (lookup-insert k j v m, h)

  pub lookup-delete :
      (k j : K) (m : Map K V) → lookup j (delete k m) ≡ (if k =? j then none else lookup j m)
  unfolding lookup delete
  lookup-delete k j [] = ground arith
  lookup-delete k j ((i, w) ∷ m) =
      ground (arith, e.beq_iff k j, e.beq_iff i k, e.beq_iff i j, lookup-delete k j m)

  pub insert_present : (k : K) (v w : V) (m : Map K V) → insert k v (insert k w m) ≡ insert k v m
  unfolding insert
  insert_present k v w [] = rw (beq_refl k)
  insert_present k v w ((i, u) ∷ m) = ground (arith, beq_refl k, insert_present k v w m)

  -- A write changes a sum over the values by the difference at its key.
  pub sum_by-insert :
      (f : V → ℕ) (k : K) (v : V) (m : Map K V)
      → sum_by f (insert k v m) + value_of f (lookup k m) ≡ sum_by f m + f v
  unfolding lookup insert
  sum_by-insert f k v [] = omega arith
  sum_by-insert f k v ((i, w) ∷ m) = ground (arith, sum_by-insert f k v m)

  pub sum_by-insert_same :
      (f : V → ℕ) (k : K) (v : V) (m : Map K V)
      → value_of f (lookup k m) ≡ f v
      → sum_by f (insert k v m) ≡ sum_by f m
  sum_by-insert_same f k v m h = omega (arith, sum_by-insert f k v m)

  -- No single value exceeds the sum.
  pub value-le-sum_by : (f : V → ℕ) (k : K) (m : Map K V) → value_of f (lookup k m) ≤ sum_by f m
  unfolding lookup
  value-le-sum_by f k [] = omega arith
  value-le-sum_by f k ((i, w) ∷ m) = ground (arith, value-le-sum_by f k m)

  pub insert_absent :
      (k : K) (v : V) (m : Map K V) → lookup k m ≡ none → insert k v m ≡ m ++ (k, v) ∷ []
  unfolding lookup insert
  insert_absent k v [] h = refl
  insert_absent k v ((i, w) ∷ m) h = ground (arith, insert_absent k v m)

  pub lookup-update :
      (k j : K) (f : V → V) (m : Map K V)
      → lookup j (update k f m)
        ≡ (if k =? j then elim (lookup k m) [ none ↦ none | some v ↦ some (f v) ] else lookup j m)
  unfolding update
  lookup-update k j f m = elim (Option-cases (lookup k m)) [
    | inl miss ↦ rw (miss, update) (ground (arith, e.beq_iff k j, miss))
    | inr (v, hit) ↦ rw (hit, update) (lookup-insert k j (f v) m)
  ]

  -- Reassociating the sum over a map whose value at one key is updated.
  pub sum_by-update :
      (g : V → ℕ) (k : K) (f : V → V) (m : Map K V) {v : V}
      → lookup k m ≡ some v
      → sum_by g (update k f m) + g v ≡ sum_by g m + g (f v)
  unfolding update
  sum_by-update g k f m {v} h = rw (h, update) (rw h at (sum_by-insert g k (f v) m))

module _ {ℓ} {K V W : Type ℓ} ⦃e : Eq K⦄ where
  pub lookup-rebuild :
      (f : V → W) (k : K) (m : Map K V)
      → lookup k (rebuild f m) ≡ elim (lookup k m) [ none ↦ none | some v ↦ some (f v) ]
  unfolding lookup rebuild
  lookup-rebuild f k [] = refl
  lookup-rebuild f k ((i, w) ∷ m) =
      ground (arith, lookup-rebuild f k m, lookup-insert i k (f w) (rebuild f m))
