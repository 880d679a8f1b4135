-- ===== src/Core/WorldState/Accounts.antt =====
-- What a write through `ensure` does to the map of accounts, at each address and to sums.
use blockz.Prelude.{
  ℕ, ◌+◌, ◌≡◌, Option, none, some, if◌then◌else◌, ◌=?◌, bytes_eq, bytes_beq_iff, arith,
  Option-cases, inl, inr,
}
use blockz.Map.{Map, lookup, update, sum_by}
use blockz.Map.Laws.{lookup-insert, lookup-update, sum_by-update, sum_by-insert}
use blockz.Types.{Address}
use blockz.Core.Account.{Account, new_account}
use blockz.Core.WorldState.{ensure}

-- The account that `ensure` leaves at the address.
abbrev pub account_or_new : Option Account → Account
account_or_new none = new_account 0
account_or_new (some acc) = acc

pub lookup-ensure :
    (a j : Address) (m : Map Address Account)
    → lookup j (ensure a m) ≡ (if a =? j then some (account_or_new (lookup a m)) else lookup j m)
unfolding ensure
lookup-ensure a j m = elim (Option-cases (lookup a m)) [
  | inl miss ↦ rw (ensure, miss) (lookup-insert a j (new_account 0) m)
  | inr (acc, hit) ↦ rw (ensure, hit) (ground (arith, bytes_beq_iff a j, hit))
]

pub lookup-write :
    (a j : Address) (f : Account → Account) (m : Map Address Account)
    → lookup j (update a f (ensure a m))
      ≡ (if a =? j then some (f (account_or_new (lookup a m))) else lookup j m)
lookup-write a j f m = ground (
  arith,
  lookup-update a j f (ensure a m),
  lookup-ensure a a m,
  lookup-ensure a j m,
  bytes_beq_iff a a,
  bytes_beq_iff a j,
)

-- A sum over the accounts to which a new account adds nothing.
module _ (g : Account → ℕ) (fresh : g (new_account 0) ≡ 0) where
  pub sum_by-ensure : (a : Address) (m : Map Address Account) → sum_by g (ensure a m) ≡ sum_by g m
  unfolding ensure
  sum_by-ensure a m = elim (Option-cases (lookup a m)) [
    | inl miss ↦
        rw (ensure, miss) (ground (arith, sum_by-insert g a (new_account 0) m, miss, fresh))
    | inr (acc, hit) ↦ rw (ensure, hit)
  ]

  pub sum_by-write :
      (a : Address) (f : Account → Account) (m : Map Address Account)
      → sum_by g (update a f (ensure a m)) + g (account_or_new (lookup a m))
        ≡ sum_by g m + g (f (account_or_new (lookup a m)))
  sum_by-write a f m = ground (arith, sum_by-update g a f (ensure a m) here, sum_by-ensure a m)
    where
      here : lookup a (ensure a m) ≡ some (account_or_new (lookup a m))
      here = ground (arith, lookup-ensure a a m, bytes_beq_iff a a)
