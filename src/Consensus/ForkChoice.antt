-- ===== src/Consensus/ForkChoice.antt =====
-- consensus/fork_choice.go: which of two chains is preferred. A cumulative difficulty is a sum of
-- weights and is never below 0; the nil pointer and the unused `TotalStake` are left out.
use blockz.Prelude.{ℕ, zero, suc, ◌⊎◌, ◌<◌, ◌≡◌, ◌↔◌, if◌then◌else◌, ltb, arith, ℤ, pos, negsuc}

pub record ChainMetadata : Type 0 where
  pub height : ℕ
  pub cumulative_difficulty : ℕ

-- `LongestChainRule.Compare`
unfoldable pub compare_longest : ChainMetadata → ChainMetadata → ℤ
compare_longest a b =
    if ltb b.height a.height then pos 1 else (if ltb a.height b.height then negsuc 0 else pos 0)

-- `big.Int.Cmp`
unfoldable pub cmp : ℕ → ℕ → ℤ
cmp x y = if ltb y x then pos 1 else (if ltb x y then negsuc 0 else pos 0)

-- `HeaviestChainRule.Compare`: the difficulties, and the heights where these are equal.
unfoldable pub compare_heaviest : ChainMetadata → ChainMetadata → ℤ
compare_heaviest a b = elim (cmp a.cumulative_difficulty b.cumulative_difficulty) [
  | pos zero ↦ compare_longest a b
  | pos (suc n) ↦ pos (suc n)
  | negsuc n ↦ negsuc n
]

abbrev flip : ℤ → ℤ
flip (pos zero) = pos zero
flip (pos (suc n)) = negsuc n
flip (negsuc n) = pos (suc n)

-- The rule of the heaviest chain is antisymmetric: swapped chains give the opposite sign.
pub compare_heaviest-flip :
    (a b : ChainMetadata) → compare_heaviest b a ≡ flip (compare_heaviest a b)
unfolding compare_heaviest compare_longest cmp
compare_heaviest-flip a b = ground arith

-- The rule of the heaviest chain prefers `a` to `b` exactly when its cumulative difficulty is
-- larger, or is the same and its height is larger.
pub compare_heaviest_iff :
    (a b : ChainMetadata)
    → (compare_heaviest a b ≡ pos 1) ↔ (
        (b.cumulative_difficulty < a.cumulative_difficulty)
        ⊎ ((b.cumulative_difficulty ≡ a.cumulative_difficulty) × (b.height < a.height)))
unfolding compare_heaviest compare_longest cmp
compare_heaviest_iff a b = ground arith

-- Preference by the rule of the heaviest chain is transitive.
pub compare_heaviest_trans :
    (a b c : ChainMetadata)
    → compare_heaviest a b ≡ pos 1
    → compare_heaviest b c ≡ pos 1
    → compare_heaviest a c ≡ pos 1
compare_heaviest_trans a b c h k =
    ground (arith, compare_heaviest_iff a b, compare_heaviest_iff b c, compare_heaviest_iff a c)
