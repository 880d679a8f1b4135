-- ===== src/Core/WorldState/Supply.antt =====
-- The total of the balances, and what each method does to it.
use blockz.Prelude.{
  ℕ, ◌+◌, ◌^◌, ◌<◌, ◌≤◌, ◌≡◌, refl, true, false, some, ◌=?◌, bytes_eq, bytes_beq_iff, arith,
  Option-cases, Bool-cases, inl, inr, ltb, ◌==◌,
}
use blockz.Map.{Map, lookup, update, sum_by}
use blockz.Map.Laws.{sum_by-update, value-le-sum_by, lookup-update}
use blockz.Types.{Address, Hash, Bytes}
use blockz.Core.Account.{Account, new_account}
use blockz.Core.WorldState.{
  WorldState, ensure, credit, debit, bump_nonce, transfer, add_balance, increment_nonce,
  set_account_state, get_balance,
}
use blockz.Core.WorldState.Accounts.{account_or_new, lookup-ensure, sum_by-ensure, sum_by-write}

abbrev pub balance_of : Account → ℕ
balance_of acc = acc.balance

-- The sum of all balances.
abbrev pub supply : WorldState → ℕ
supply ws = sum_by balance_of ws.accounts

pub new_account-balance : balance_of (new_account 0) ≡ 0
unfolding new_account
new_account-balance = refl

pub get_balance-le-supply : (ws : WorldState) (a : Address) → get_balance ws a ≤ supply ws
unfolding get_balance
get_balance-le-supply ws a = ground (arith, value-le-sum_by balance_of a ws.accounts)

or_new-le-supply :
    (m : Map Address Account) (a : Address)
    → balance_of (account_or_new (lookup a m)) ≤ sum_by balance_of m
or_new-le-supply m a = ground (arith, value-le-sum_by balance_of a m, new_account-balance)

pub supply-add_balance :
    (ws : WorldState) (a : Address) (amount : ℕ)
    → supply ws + amount < 2 ^ 64
    → supply (add_balance ws a amount) ≡ supply ws + amount
unfolding add_balance
supply-add_balance ws a amount h = omega (
  arith,
  sum_by-write balance_of new_account-balance a (credit amount) ws.accounts,
  or_new-le-supply ws.accounts a,
)

pub supply-increment_nonce :
    (ws : WorldState) (a : Address) → supply (increment_nonce ws a) ≡ supply ws
unfolding increment_nonce
supply-increment_nonce ws a =
    omega (arith, sum_by-write balance_of new_account-balance a bump_nonce ws.accounts)

pub supply-set_account_state :
    (ws : WorldState) (a : Address) (k : Hash) (v : Bytes)
    → supply (set_account_state ws a k v) ≡ supply ws
unfolding set_account_state
supply-set_account_state ws a k v =
    omega (arith, sum_by-write balance_of new_account-balance a _ ws.accounts)

-- Moving value between two accounts that are there keeps the sum, also where they are one account.
supply-move :
    (m : Map Address Account) (from to : Address) (value : ℕ) {f : Account} {t : Account}
    → lookup from m ≡ some f
    → lookup to m ≡ some t
    → value ≤ f.balance
    → sum_by balance_of m < 2 ^ 64
    → sum_by balance_of (update to (credit value) (update from (debit value) m))
      ≡ sum_by balance_of m
supply-move m from to value {f} {t} hf ht le fits = elim (Bool-cases (from =? to)) [
  | inl same ↦ omega (
    arith,
    sum_by-update balance_of from (debit value) m hf,
    sum_by-update balance_of to (credit value) (update from (debit value) m) (there same),
    source,
  )
  | inr other ↦ omega (
    arith,
    sum_by-update balance_of from (debit value) m hf,
    sum_by-update balance_of to (credit value) (update from (debit value) m) (apart other),
    source,
    target other,
  )
]
  where
    source : f.balance ≤ sum_by balance_of m
    source = ground (arith, value-le-sum_by balance_of from m, hf)

    there : (from =? to) ≡ true → lookup to (update from (debit value) m) ≡ some (debit value f)
    there same = rw (lookup-update from to (debit value) m, same, hf)

    apart : (from =? to) ≡ false → lookup to (update from (debit value) m) ≡ some t
    apart other = rw (lookup-update from to (debit value) m, other) ht

    target : (from =? to) ≡ false → t.balance ≤ sum_by balance_of (update from (debit value) m)
    target other =
        ground (arith, value-le-sum_by balance_of to (update from (debit value) m), apart other)

-- A transfer, whether it succeeds or fails, leaves the sum of all balances, as long as that is below
-- 2^64.
pub supply-transfer :
    (ws : WorldState) (from to : Address) (value : ℕ)
    → supply ws < 2 ^ 64
    → supply (transfer ws from to value).0 ≡ supply ws
unfolding transfer
supply-transfer ws from to value fits = elim (Bool-cases (value == 0)) [
  | inl none_sent ↦ rw none_sent
  | inr sent ↦ elim (Option-cases (lookup from ws.accounts)) [
    | inl miss ↦ rw (sent, transfer, miss)
    | inr (f, hit) ↦ elim (Bool-cases (ltb f.balance value)) [
      | inl poor ↦ rw (sent, transfer, hit, poor)
      | inr rich ↦ rw (sent, transfer, hit, rich) (moved f hit (ground arith))
    ]
  ]
]
  where
    moved :
        (f : Account)
        → lookup from ws.accounts ≡ some f
        → value ≤ f.balance
        → sum_by balance_of
            (update to (credit value) (update from (debit value) (ensure to ws.accounts)))
          ≡ supply ws
    moved f hit le = omega (
      arith,
      supply-move (ensure to ws.accounts) from to value {f = f}
          {t = account_or_new (lookup to ws.accounts)}
          (ground (arith, lookup-ensure to from ws.accounts, bytes_beq_iff to from, hit))
          (ground (arith, lookup-ensure to to ws.accounts, bytes_beq_iff to to)) le,
      sum_by-ensure balance_of new_account-balance to ws.accounts,
    )
