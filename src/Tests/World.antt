-- ===== src/Tests/World.antt =====
-- Transfers between two accounts, stores and hashes.
use blockz.Prelude.{◌+◌, ◌<◌, ◌≤◌, ◌≡◌, ◌≢◌, ◌↔◌, refl, bytes_eq, arith}
use blockz.Result.{Error, ok, err}
use blockz.Map.{lookup, insert}
use blockz.Types.{Address, is_zero}
use blockz.Core.WorldState.{WorldState, transfer, get_balance, get_nonce}
use blockz.Core.WorldState.Transfer.{transfer_ok_iff, transfer_moves}
use blockz.Tests.{alice, bob, two_accounts}

program : Unit {0}
unfolding lookup insert transfer is_zero
program = tt

-- Alice sends 3 to Bob.
transfer_ok_iff_example :
    (((transfer two_accounts alice bob 3).1 ≡ ok tt)
      ↔ ((0 < 3) × (3 ≤ get_balance two_accounts alice)))
    × ((e : Error)
        → (transfer two_accounts alice bob 3).1 ≡ err e
        → (transfer two_accounts alice bob 3).0 ≡ two_accounts)
transfer_ok_iff_example = transfer_ok_iff two_accounts alice bob 3

abbrev after : WorldState
after = (transfer two_accounts alice bob 3).0

moved : transfer two_accounts alice bob 3 ≡ (after, ok tt)
unfolding program
moved = refl

transfer_moves_example :
    (get_balance after alice + 3 ≡ get_balance two_accounts alice)
    × (get_balance after bob ≡ get_balance two_accounts bob + 3)
    × ((a : Address) → a ≢ alice → a ≢ bob → get_balance after a ≡ get_balance two_accounts a)
    × ((a : Address) → get_nonce after a ≡ get_nonce two_accounts a)
transfer_moves_example =
    transfer_moves two_accounts alice bob 3 {ws' = after} moved (λ same. cc) (omega arith)
