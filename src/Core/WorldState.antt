-- ===== src/Core/WorldState.antt =====
-- core/world_state.go: the accounts by address and the contract code by hash. A method returns the
-- new state beside its result. A write to an account goes through the pointer that the map holds.
-- The locks serialise the methods, so each is one step.
pub mod Accounts
pub mod Supply
pub mod Contracts
pub mod Copies
pub mod Root
pub mod Transfer
use blockz.Prelude.{
  ℕ, ◌+◌, ◌-◌, ◌%◌, ◌^◌, [], Option, none, some, if◌then◌else◌, ◌==◌, ltb, length, bytes_eq,
}
use blockz.Result.{
  Result, ok, err, zero_transfer, sender_missing, insufficient_balance, account_missing,
  key_missing,
}
use blockz.Map.{Map, lookup, insert, update, rebuild}
use blockz.Types.{Bytes, Address, Hash}
use blockz.Core.Account.{Account, new_account, deep_copy}

pub record WorldState : Type 0 where
  pub accounts : Map Address Account
  pub contract_code : Map Hash Bytes

abbrev pub new_world_state : WorldState
new_world_state = record { accounts = []; contract_code = [] }

-- `CreateGenesisState`: the allocations are a map, so no address comes twice.
unfoldable pub create_genesis_state : Map Address ℕ → WorldState
unfolding rebuild new_account
create_genesis_state allocs = record { accounts = rebuild new_account allocs; contract_code = [] }

unfoldable pub get_account : WorldState → Address → Option Account
unfolding lookup
get_account ws addr = lookup addr ws.accounts

-- `if !ok { acc = NewAccount(0); ws.accounts[addr] = acc }`
unfoldable pub ensure : Address → Map Address Account → Map Address Account
unfolding lookup insert new_account
ensure addr accounts = elim (lookup addr accounts) [
  | none ↦ insert addr (new_account 0) accounts
  | some acc ↦ accounts
]

unfoldable pub get_or_create_account : WorldState → Address → WorldState × Account
unfolding ensure lookup insert new_account
get_or_create_account ws addr = elim (lookup addr ws.accounts) [
  | none ↦ (record ws { accounts = insert addr (new_account 0) ws.accounts }, new_account 0)
  | some acc ↦ (ws, acc)
]

unfoldable pub get_balance : WorldState → Address → ℕ
unfolding lookup
get_balance ws addr = elim (lookup addr ws.accounts) [ none ↦ 0 | some acc ↦ acc.balance ]

unfoldable pub get_nonce : WorldState → Address → ℕ
unfolding lookup
get_nonce ws addr = elim (lookup addr ws.accounts) [ none ↦ 0 | some acc ↦ acc.nonce ]

-- What the methods write to an account. A `uint64` wraps.
abbrev pub bump_nonce : Account → Account
bump_nonce acc = record acc { nonce = (acc.nonce + 1) % 2 ^ 64 }

abbrev pub credit : ℕ → Account → Account
credit amount acc = record acc { balance = (acc.balance + amount) % 2 ^ 64 }

-- Reached only where the balance covers the amount.
abbrev pub debit : ℕ → Account → Account
debit amount acc = record acc { balance = acc.balance - amount }

unfoldable pub increment_nonce : WorldState → Address → WorldState
unfolding ensure update
increment_nonce ws addr = record ws { accounts = update addr bump_nonce (ensure addr ws.accounts) }

unfoldable pub transfer : WorldState → Address → Address → ℕ → WorldState × Result (Unit {0})
unfolding lookup ensure update
transfer ws from to value =
    if value == 0 then (ws, err zero_transfer) else elim (lookup from ws.accounts) [
      | none ↦ (ws, err sender_missing)
      | some from_acc ↦ if ltb from_acc.balance value then (ws, err insufficient_balance) else (
        record ws {
          accounts = update to (credit value) (update from (debit value) (ensure to ws.accounts));
        },
        ok tt,
      )
    ]

unfoldable pub add_balance : WorldState → Address → ℕ → WorldState
unfolding ensure update
add_balance ws addr amount = record ws {
  accounts = update addr (credit amount) (ensure addr ws.accounts);
}

unfoldable pub sub_balance : WorldState → Address → ℕ → WorldState × Result (Unit {0})
unfolding lookup update
sub_balance ws addr amount = elim (lookup addr ws.accounts) [
  | none ↦ (ws, err account_missing)
  | some acc ↦
      if ltb acc.balance amount
      then (ws, err insufficient_balance)
      else (record ws { accounts = update addr (debit amount) ws.accounts }, ok tt)
]

-- `SetCode`, over the hash function.
unfoldable pub set_code : (Bytes → Hash) → WorldState → Address → Bytes → WorldState
unfolding ensure update insert
set_code sha256 ws addr code = record ws {
  accounts = update addr (λ acc. record acc { code_hash = sha256 code }) (ensure addr ws.accounts);
  contract_code = insert (sha256 code) code ws.contract_code;
}

-- A missing entry is the nil slice.
unfoldable pub get_code : WorldState → Address → Bytes
unfolding lookup
get_code ws addr = elim (lookup addr ws.accounts) [
  | none ↦ []
  | some acc ↦ elim (lookup acc.code_hash ws.contract_code) [ none ↦ [] | some code ↦ code ]
]

unfoldable pub copy : WorldState → WorldState
unfolding rebuild deep_copy
copy ws = record {
  accounts = rebuild deep_copy ws.accounts;
  contract_code = rebuild (λ code. code) ws.contract_code;
}

abbrev pub account_count : WorldState → ℕ
account_count ws = length ws.accounts

unfoldable pub set_account_state : WorldState → Address → Hash → Bytes → WorldState
unfolding ensure update insert
set_account_state ws addr key value = record ws {
  accounts =
      update addr (λ acc. record acc { storage = insert key value acc.storage })
        (ensure addr ws.accounts);
}

unfoldable pub get_account_state : WorldState → Address → Hash → Result Bytes
unfolding lookup
get_account_state ws addr key = elim (lookup addr ws.accounts) [
  | none ↦ err account_missing
  | some acc ↦ elim (lookup key acc.storage) [ none ↦ err key_missing | some val ↦ ok val ]
]
