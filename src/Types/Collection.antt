-- ===== src/Types/Collection.antt =====
-- types/list.go: `List[T]`, a growing slice. `reflect.DeepEqual` is the equality of the elements.
use blockz.Prelude.{
  ℕ, zero, suc, ◌+◌, ◌-◌, ◌≡◌, refl, Bool, true, false, List, [], ◌∷◌, ◌++◌, Option, none, some,
  if◌then◌else◌, ◌=?◌, length, get_elem?, arith, ◌==◌, ◌⊎◌, inl, inr, Bool-cases, sym,
}
use blockz.Prelude.Equality.{Eq}
use native.Mathlib.Nat.{add-zero, add-suc, suc-add, zero-add}
use blockz.Result.{Result, ok, panic, index_out_of_range}

module _ {ℓ} {A : Type ℓ} where
  -- `NewList` and `Clear`
  abbrev pub new_list : List A
  new_list = []

  -- `Get`: an index past the end makes a panic.
  unfoldable pub get : List A → ℕ → Result A
  get l index = elim (get_elem? l index) [ none ↦ panic index_out_of_range | some v ↦ ok v ]

  -- `Insert`
  unfoldable pub insert : A → List A → List A
  insert v l = l ++ v ∷ []

  -- `Pop`: the elements before `index`, then those behind it.
  unfoldable pub pop : ℕ → List A → List A
  pop index [] = []
  pop zero (x ∷ l) = l
  pop (suc index) (x ∷ l) = x ∷ pop index l

  -- `Last`
  unfoldable pub last : List A → Result A
  unfolding get
  last l = if length l == 0 then panic index_out_of_range else get l (length l - 1)

module _ {ℓ} {A : Type ℓ} ⦃e : Eq A⦄ where
  -- The loop of `GetIndex` from index `i` on; `none` is the -1 of the code.
  unfoldable pub get_index_from : ℕ → A → List A → Option ℕ
  get_index_from i v [] = none
  get_index_from i v (x ∷ l) = if v =? x then some i else get_index_from (suc i) v l

  unfoldable pub get_index : A → List A → Option ℕ
  unfolding get_index_from
  get_index v l = get_index_from 0 v l

  -- `Remove`
  unfoldable pub remove : A → List A → List A
  unfolding get_index pop
  remove v l = elim (get_index v l) [ none ↦ l | some index ↦ pop index l ]

  unfoldable pub contains : A → List A → Bool
  contains v [] = false
  contains v (x ∷ l) = let rest = contains v l in if x =? v then true else rest

  -- What `Remove` comes to: the first equal element goes.
  unfoldable pub remove_first : A → List A → List A
  remove_first v [] = []
  remove_first v (x ∷ l) = let rest = remove_first v l in if v =? x then l else x ∷ rest

  get_index_from_lem :
      (i : ℕ) (v : A) (l : List A)
      → ((get_index_from i v l ≡ none) × (remove_first v l ≡ l))
        ⊎ ((k : ℕ) × (get_index_from i v l ≡ some (i + k)) × (pop k l ≡ remove_first v l))
  unfolding get_index_from remove_first pop
  get_index_from_lem i v [] = inl (refl, refl)
  get_index_from_lem i v (x ∷ l) = elim (Bool-cases (v =? x)) [
    | inl same ↦ inr (0, rw (same, add-zero) refl, rw same refl)
    | inr other ↦ elim (get_index_from_lem (suc i) v l) [
      | inl (absent, kept) ↦ inl (rw other absent, rw (other, kept) refl)
      | inr (k, found, popped) ↦ inr (
        suc k,
        rw (other, found) (ground (arith, add-suc i k, suc-add i k)),
        rw (other, popped) refl,
      )
    ]
  ]

  -- `Remove` drops the first element that is equal to `v`, and nothing else.
  pub remove_lem : (v : A) (l : List A) → remove v l ≡ remove_first v l
  unfolding remove get_index
  remove_lem v l = elim (get_index_from_lem 0 v l) [
    | inl (absent, kept) ↦ rw (remove, absent) (sym kept)
    | inr (k, found, popped) ↦ rw (remove, found, zero-add) popped
  ]
