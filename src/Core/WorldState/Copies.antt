-- ===== src/Core/WorldState/Copies.antt =====
-- What reads of a copy of the world state return.
use blockz.Prelude.{◌≡◌, bytes_eq, arith, Option-cases, inl, inr}
use blockz.Map.{lookup}
use blockz.Map.Laws.{lookup-rebuild}
use blockz.Types.{Bytes, Address, Hash}
use blockz.Core.Account.{deep_copy, lookup-deep_copy}
use blockz.Core.WorldState.{WorldState, copy, get_balance, get_nonce, get_code, get_account_state}

-- A copy of the world state has every balance, every nonce, the code of every account and every
-- storage value of the original.
pub get-copy :
    (ws : WorldState) (a : Address) (k : Hash)
    → (get_balance (copy ws) a ≡ get_balance ws a)
      × (get_nonce (copy ws) a ≡ get_nonce ws a)
      × (get_code (copy ws) a ≡ get_code ws a)
      × (get_account_state (copy ws) a k ≡ get_account_state ws a k)
unfolding get_balance get_nonce get_code get_account_state copy deep_copy
get-copy ws a k =
    let copied = lookup-rebuild deep_copy a ws.accounts in
    elim (Option-cases (lookup a ws.accounts)) [
      | inl absent ↦ ground (arith, copied)
      | inr (acc, present) ↦ (
        ground (arith, copied),
        ground (arith, copied),
        ground
            (arith, copied, lookup-rebuild (λ (code : Bytes). code) acc.code_hash ws.contract_code),
        ground (arith, copied, lookup-deep_copy acc k),
      )
    ]
