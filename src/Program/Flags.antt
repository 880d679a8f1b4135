-- ===== src/Program/Flags.antt =====
-- main.go: the seeds that the flag `-seeds` names.
use blockz.Prelude.{ℕ, ◌≡◌, ◌≢◌, refl, false, List, [], ◌∷◌, ◌=?◌, bytes_eq}
use blockz.Types.{Bytes}
use blockz.Program.Seeds.{join, any_has_byte, split-join}
use blockz.Program.{seed_nodes}

join_written :
    (sep : ℕ) (part : Bytes) (parts : List Bytes)
    → part ∷ parts ≢ [] ∷ []
    → (join sep (part ∷ parts) =? []) ≡ false
unfolding join
join_written sep [] [] several = absurd (several refl)
join_written sep [] (next ∷ parts) several = refl
join_written sep (c ∷ part) [] several = refl
join_written sep (c ∷ part) (next ∷ parts) several = refl

-- The seeds of a node are the addresses that its flag was joined from with commas, when none of them has
-- a comma in it and they are not the empty address alone. No address gives no seed.
pub seed_nodes-join :
    (seeds : List Bytes)
    → any_has_byte 44 seeds ≡ false
    → seeds ≢ [] ∷ []
    → seed_nodes (join 44 seeds) ≡ seeds
unfolding seed_nodes join
seed_nodes-join [] clean several = refl
seed_nodes-join (part ∷ parts) clean several =
    rw (seed_nodes, join_written 44 part parts several) (split-join 44 part parts clean)
