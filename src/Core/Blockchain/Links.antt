-- ===== src/Core/Blockchain/Links.antt =====
-- Chains of headers: heights that count up from 0, and each header linked to the one below it.
use blockz.Prelude.{
  ℕ, zero, suc, ◌+◌, ◌<◌, ◌≡◌, refl, List, [], ◌∷◌, ◌++◌, some, length, get_elem?, arith, inl, inr,
  some_inj, ◌⊎◌,
}
use blockz.Core.Data.{Header, Primitives}
use blockz.Core.Block.{block_hasher}

-- The heights are `n`, `n + 1` and so on.
abbrev pub HeightsFrom : ℕ → List Header → Type 0
HeightsFrom n [] = Unit
HeightsFrom n (h ∷ headers) = (h.height ≡ n) × HeightsFrom (suc n) headers

pub HeightsFrom-append :
    (n : ℕ) (headers : List Header) (h : Header)
    → HeightsFrom n headers
    → h.height ≡ n + length headers
    → HeightsFrom n (headers ++ h ∷ [])
HeightsFrom-append n [] h hs e = (omega arith, tt)
HeightsFrom-append n (g ∷ headers) h hs e =
    (hs.0, HeightsFrom-append (suc n) headers h hs.1 (omega arith))

pub HeightsFrom-get :
    (n : ℕ) (headers : List Header) (i : ℕ) {h : Header}
    → HeightsFrom n headers
    → get_elem? headers i ≡ some h
    → h.height ≡ n + i
HeightsFrom-get n [] i hs e = cc
HeightsFrom-get n (g ∷ headers) zero hs e = ground arith
HeightsFrom-get n (g ∷ headers) (suc i) hs e =
    omega (arith, HeightsFrom-get (suc n) headers i hs.1 e)

module _ (prims : Primitives) where
  -- `h` names `below` as the previous block.
  abbrev pub LinksTo : Header → Header → Type 0
  LinksTo h below = block_hasher prims below ≡ h.prev_block_hash

  -- Each header of the list, the first one above `below`, is linked to the one before it.
  abbrev pub LinkedFrom : Header → List Header → Type 0
  LinkedFrom below [] = Unit
  LinkedFrom below (h ∷ headers) = LinksTo h below × LinkedFrom h headers

  abbrev pub AreLinked : List Header → Type 0
  AreLinked [] = Unit
  AreLinked (h ∷ headers) = LinkedFrom h headers

  LinkedFrom-append :
      (below : Header) (headers : List Header) (h : Header) {top : Header}
      → LinkedFrom below headers
      → get_elem? (below ∷ headers) (length headers) ≡ some top
      → LinksTo h top
      → LinkedFrom below (headers ++ h ∷ [])
  LinkedFrom-append below [] h {top} ls e link = (ground arith, tt)
  LinkedFrom-append below (g ∷ headers) h ls e link =
      (ls.0, LinkedFrom-append g headers h ls.1 e link)

  -- A header that names the last one of a linked list can be put on top.
  pub AreLinked-append :
      (headers : List Header) (h : Header) (n : ℕ) {top : Header}
      → length headers ≡ suc n
      → AreLinked headers
      → get_elem? headers n ≡ some top
      → LinksTo h top
      → AreLinked (headers ++ h ∷ [])
  AreLinked-append [] h n len ls e link = tt
  AreLinked-append (g ∷ headers) h n len ls e link =
      let same : length headers ≡ n = omega arith in
      LinkedFrom-append g headers h ls (rw same e) link

pub get_elem?-append_left {ℓ} :
    {A : Type ℓ} (xs ys : List A) (i : ℕ) → i < length xs → get_elem? (xs ++ ys) i ≡ get_elem? xs i
get_elem?-append_left [] ys i h = absurd (omega arith)
get_elem?-append_left (x ∷ xs) ys zero h = refl
get_elem?-append_left (x ∷ xs) ys (suc i) h = get_elem?-append_left xs ys i (omega arith)

pub get_elem?-append_last {ℓ} :
    {A : Type ℓ} (xs : List A) (y : A) (i : ℕ) → i ≡ length xs → get_elem? (xs ++ y ∷ []) i ≡ some y
get_elem?-append_last [] y zero h = refl
get_elem?-append_last [] y (suc i) h = absurd (omega arith)
get_elem?-append_last (x ∷ xs) y zero h = absurd (omega arith)
get_elem?-append_last (x ∷ xs) y (suc i) h = get_elem?-append_last xs y i (omega arith)

-- An element of a list with one more at its end is an older one or that one.
pub get_elem?-append_inv {ℓ} :
    {A : Type ℓ} (xs : List A) (y : A) (i : ℕ) {a : A}
    → get_elem? (xs ++ y ∷ []) i ≡ some a
    → ((i < length xs) × (get_elem? xs i ≡ some a)) ⊎ ((i ≡ length xs) × (y ≡ a))
get_elem?-append_inv [] y zero h = inr (refl, some_inj h)
get_elem?-append_inv [] y (suc i) h = absurd (cc h)
get_elem?-append_inv (x ∷ xs) y zero h = inl (omega arith, h)
get_elem?-append_inv (x ∷ xs) y (suc i) h = elim (get_elem?-append_inv xs y i h) [
  | inl (lt, e) ↦ inl (omega arith, e)
  | inr (same, e) ↦ inr (omega arith, e)
]
