-- ===== src/Prelude/Reads.antt =====
-- Reads with a default, at each index of a list that is put together from others.
use Prim.Native.Nat.{ℕ, zero, suc, ◌+◌, ◌-◌, ◌≤◌, ◌<◌}
use mathlib.Core.Path.{◌≡◌, refl, ap₂}
use mathlib.Core.List.{List, [], ◌∷◌, ◌++◌}
use native.Mathlib.Omega.{arith}
use native.Mathlib.Nat.{zero-add, suc-add, sub-zero, suc-sub-suc}
use blockz.Prelude.Tests.{ltb, if◌then◌else◌}
use blockz.Prelude.Lists.{length, get_or, take, drop, replicate}

module _ {ℓ} {A : Type ℓ} (d : A) where
  pub get_or-beyond : (xs : List A) (i : ℕ) → length xs ≤ i → get_or xs i d ≡ d
  get_or-beyond [] i h = refl
  get_or-beyond (x ∷ xs) zero h = absurd (omega arith)
  get_or-beyond (x ∷ xs) (suc i) h = get_or-beyond xs i (omega arith)

  pub get_or-append :
      (xs ys : List A) (i : ℕ)
      → get_or (xs ++ ys) i d
        ≡ (if ltb i (length xs) then get_or xs i d else get_or ys (i - length xs) d)
  get_or-append [] ys i = rw sub-zero (ground arith)
  get_or-append (x ∷ xs) ys zero = ground arith
  get_or-append (x ∷ xs) ys (suc i) = rw suc-sub-suc (ground (arith, get_or-append xs ys i))

  pub get_or-replicate : (n i : ℕ) → get_or (replicate n d) i d ≡ d
  get_or-replicate zero i = refl
  get_or-replicate (suc n) zero = refl
  get_or-replicate (suc n) (suc i) = get_or-replicate n i

  pub get_or-take :
      (n : ℕ) (xs : List A) (i : ℕ)
      → get_or (take n xs) i d ≡ (if ltb i n then get_or xs i d else d)
  get_or-take zero xs i = ground arith
  get_or-take (suc n) [] i = ground arith
  get_or-take (suc n) (x ∷ xs) zero = ground arith
  get_or-take (suc n) (x ∷ xs) (suc i) = ground (arith, get_or-take n xs i)

  pub get_or-drop : (n : ℕ) (xs : List A) (i : ℕ) → get_or (drop n xs) i d ≡ get_or xs (n + i) d
  get_or-drop zero xs i = rw zero-add
  get_or-drop (suc n) [] i = refl
  get_or-drop (suc n) (x ∷ xs) i = rw suc-add (get_or-drop n xs i)

  -- Lists of one length that read alike are one list.
  pub eq_of_get_or :
      (xs ys : List A)
      → length xs ≡ length ys
      → ((i : ℕ) → i < length xs → get_or xs i d ≡ get_or ys i d)
      → xs ≡ ys
  eq_of_get_or [] [] h same = refl
  eq_of_get_or [] (y ∷ ys) h same = absurd (omega arith)
  eq_of_get_or (x ∷ xs) [] h same = absurd (omega arith)
  eq_of_get_or (x ∷ xs) (y ∷ ys) h same =
      ap₂ (λ a (l : List A). a ∷ l) (same 0 (omega arith))
        (eq_of_get_or xs ys (omega arith) (λ i lt. same (suc i) (omega arith)))
