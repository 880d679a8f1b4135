-- ===== src/Map/Defs.antt =====
-- The operations of a map: `m[k]`, `m[k] = v`, `delete(m, k)`, and a sum over its values.
use blockz.Prelude.{
  ℕ, ◌+◌, Bool, true, false, List, [], ◌∷◌, Option, none, some, ◌=?◌, if◌then◌else◌, map,
}
use blockz.Prelude.Equality.{Eq}

abbrev pub Map {ℓ} : Type ℓ → Type ℓ → Type ℓ
Map K V = List (K × V)

module _ {ℓ} {K V : Type ℓ} where
  abbrev pub keys : Map K V → List K
  keys m = map (λ e. e.0) m

module _ {ℓ} {K V : Type ℓ} where
  abbrev pub sum_by : (V → ℕ) → Map K V → ℕ
  sum_by f [] = 0
  sum_by f ((k, v) ∷ m) = f v + sum_by f m

module _ {ℓ} {K V : Type ℓ} ⦃e : Eq K⦄ where
  unfoldable pub lookup : K → Map K V → Option V
  lookup k [] = none
  lookup k ((j, v) ∷ m) = if j =? k then some v else lookup k m

  unfoldable pub insert : K → V → Map K V → Map K V
  insert k v [] = (k, v) ∷ []
  insert k v ((j, w) ∷ m) = if j =? k then (j, v) ∷ m else (j, w) ∷ insert k v m

  unfoldable pub delete : K → Map K V → Map K V
  delete k [] = []
  delete k ((j, w) ∷ m) = let rest = delete k m in if j =? k then rest else (j, w) ∷ rest

  unfoldable pub has : K → Map K V → Bool
  unfolding lookup
  has k m = elim (lookup k m) [ none ↦ false | some v ↦ true ]

  -- A write through the pointer that the map holds at `k`.
  unfoldable pub update : K → (V → V) → Map K V → Map K V
  unfolding lookup insert
  update k f m = elim (lookup k m) [ none ↦ m | some v ↦ insert k (f v) m ]

module _ {ℓ} {K V W : Type ℓ} ⦃e : Eq K⦄ where
  -- `for k, v := range m { out[k] = f(v) }`, into a new map
  unfoldable pub rebuild : (V → W) → Map K V → Map K W
  unfolding insert
  rebuild f [] = []
  rebuild f ((k, v) ∷ m) = insert k (f v) (rebuild f m)
