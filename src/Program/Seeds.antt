-- ===== src/Program/Seeds.antt =====
-- main.go: the list of seeds in a flag. `split` is `strings.Split`, for a separator of one byte.
use blockz.Prelude.{
  ℕ, ◌≡◌, refl, ap, ◌∙◌, Bool, false, List, [], ◌∷◌, ◌++◌, if◌then◌else◌, ◌==◌, ◌||◌, bytes_eq,
  arith,
}
use blockz.Types.{Bytes}

abbrev cons_head : ℕ → List Bytes → List Bytes
cons_head c [] = (c ∷ []) ∷ []
cons_head c (part ∷ parts) = (c ∷ part) ∷ parts

unfoldable pub split : ℕ → Bytes → List Bytes
split sep [] = [] ∷ []
split sep (c ∷ s) = let rest = split sep s in if c == sep then [] ∷ rest else cons_head c rest

-- `strings.Join`
unfoldable pub join : ℕ → List Bytes → Bytes
join sep [] = []
join sep (part ∷ []) = part
join sep (part ∷ next ∷ parts) = part ++ sep ∷ join sep (next ∷ parts)

unfoldable pub has_byte : ℕ → Bytes → Bool
has_byte sep [] = false
has_byte sep (c ∷ s) = (c == sep) || has_byte sep s

unfoldable pub any_has_byte : ℕ → List Bytes → Bool
any_has_byte sep [] = false
any_has_byte sep (part ∷ parts) = has_byte sep part || any_has_byte sep parts

split-clean : (sep : ℕ) (s : Bytes) → has_byte sep s ≡ false → split sep s ≡ s ∷ []
unfolding split has_byte
split-clean sep [] h = refl
split-clean sep (c ∷ s) h = ground (arith, split-clean sep s)

split-append :
    (sep : ℕ) (s more : Bytes)
    → has_byte sep s ≡ false
    → split sep (s ++ sep ∷ more) ≡ s ∷ split sep more
unfolding split has_byte
split-append sep [] more h = ground arith
split-append sep (c ∷ s) more h = ground (arith, split-append sep s more)

-- A list of strings that is not empty is what its join is split into, when none of them has the
-- separator.
pub split-join :
    (sep : ℕ) (part : Bytes) (parts : List Bytes)
    → any_has_byte sep (part ∷ parts) ≡ false
    → split sep (join sep (part ∷ parts)) ≡ part ∷ parts
unfolding join any_has_byte
split-join sep part [] h = split-clean sep part (ground arith)
split-join sep part (next ∷ parts) h =
    split-append sep part (join sep (next ∷ parts)) (ground arith)
    ∙ ap (λ ps. part ∷ ps) (split-join sep next parts (ground arith))
