-- ===== src/Core/WorldState/Contracts.antt =====
-- Contract storage and code: a read after a write, and the world state as the machine's `StateDB`.
use blockz.Prelude.{◌≡◌, ◌≢◌, ◌&&◌, ◌=?◌, bytes_eq, bytes_beq_iff, arith, if◌then◌else◌, some}
use blockz.Result.{ok}
use blockz.Map.{lookup, insert}
use blockz.Map.Laws.{lookup-insert}
use blockz.Types.{Bytes, Address, Hash}
use blockz.Core.Account.{Account, new_account}
use blockz.Core.StateDb.{StateDb, stored}
use blockz.Core.WorldState.{
  WorldState, set_account_state, get_account_state, set_code, get_code, get_balance, get_nonce,
}
use blockz.Core.WorldState.Accounts.{lookup-write, account_or_new}

pub stored-set_account_state :
    (ws : WorldState) (a b : Address) (k j : Hash) (v : Bytes)
    → stored (get_account_state (set_account_state ws a k v) b j)
      ≡ (if (a =? b) && (k =? j) then v else stored (get_account_state ws b j))
unfolding get_account_state set_account_state new_account lookup
stored-set_account_state ws a b k j v = ground (
  arith,
  lookup-write a b (λ (acc : Account). record acc { storage = insert k v acc.storage }) ws.accounts,
  lookup-insert k j v (account_or_new (lookup a ws.accounts)).storage,
  bytes_beq_iff a b,
)

instance abbrev pub world_state_db : StateDb WorldState
world_state_db = record {
  get_account_state = get_account_state;
  set_account_state = set_account_state;
  get-set = stored-set_account_state;
}

-- A write to contract storage is what the next read of that key returns; it moves no balance and no
-- nonce of any account.
pub get-set_account_state :
    (ws : WorldState) (a : Address) (k : Hash) (v : Bytes)
    → (get_account_state (set_account_state ws a k v) a k ≡ ok v)
      × ((b : Address) → get_balance (set_account_state ws a k v) b ≡ get_balance ws b)
      × ((b : Address) → get_nonce (set_account_state ws a k v) b ≡ get_nonce ws b)
unfolding get_account_state set_account_state get_balance get_nonce new_account
get-set_account_state ws a k v =
    let write = λ (acc : Account). record acc { storage = insert k v acc.storage } in
    (
      ground (
        arith,
        lookup-write a a write ws.accounts,
        lookup-insert k k v (account_or_new (lookup a ws.accounts)).storage,
        bytes_beq_iff a a,
        bytes_beq_iff k k,
      ),
      λ b. ground (arith, lookup-write a b write ws.accounts, bytes_beq_iff a b),
      λ b. ground (arith, lookup-write a b write ws.accounts, bytes_beq_iff a b),
    )

-- Deployed code is what `GetCode` returns for the account. Two accounts share code by its hash, so
-- another account keeps its code as long as its code does not hash like the new one.
pub get_code-set_code :
    (sha256 : Bytes → Hash) (ws : WorldState) (a : Address) (code : Bytes)
    → (get_code (set_code sha256 ws a code) a ≡ code)
      × ((b : Address) (acc : Account)
          → lookup b ws.accounts ≡ some acc
          → b ≢ a
          → acc.code_hash ≢ sha256 code
          → get_code (set_code sha256 ws a code) b ≡ get_code ws b)
unfolding set_code get_code
get_code-set_code sha256 ws a code =
    let write = λ (acc : Account). record acc { code_hash = sha256 code } in
    (
      ground (
        arith,
        lookup-write a a write ws.accounts,
        lookup-insert (sha256 code) (sha256 code) code ws.contract_code,
        bytes_beq_iff a a,
        bytes_beq_iff (sha256 code) (sha256 code),
      ),
      λ b acc hit other fresh. ground (
        arith,
        lookup-write a b write ws.accounts,
        lookup-insert (sha256 code) acc.code_hash code ws.contract_code,
        bytes_beq_iff a b,
        bytes_beq_iff (sha256 code) acc.code_hash,
        hit,
      ),
    )
