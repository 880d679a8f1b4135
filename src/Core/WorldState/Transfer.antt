-- ===== src/Core/WorldState/Transfer.antt =====
-- `Transfer`: when it succeeds, what it moves, and that a refused transfer changes nothing.
use blockz.Prelude.{
  ℕ, ◌+◌, ◌^◌, ◌<◌, ◌≤◌, ◌≡◌, ◌≢◌, ◌↔◌, false, some, if◌then◌else◌, ◌=?◌, bytes_eq, bytes_beq_iff,
  arith, Option-cases, inl, inr,
}
use blockz.Result.{ok, err, Error}
use blockz.Map.{lookup, update}
use blockz.Map.Laws.{sum_by-update, value-le-sum_by, lookup-update}
use blockz.Types.{Address}
use blockz.Core.Account.{Account, new_account}
use blockz.Core.WorldState.{WorldState, ensure, credit, debit, transfer, get_balance, get_nonce}
use blockz.Core.WorldState.Accounts.{account_or_new, lookup-ensure, sum_by-ensure}
use blockz.Core.WorldState.Supply.{supply, balance_of, new_account-balance}

-- The state that a successful transfer leaves.
abbrev pub after_transfer : WorldState → Address → Address → ℕ → WorldState
after_transfer ws from to value = record ws {
  accounts = update to (credit value) (update from (debit value) (ensure to ws.accounts));
}

pub transfer-inv :
    (ws : WorldState) (from to : Address) (value : ℕ) {ws' : WorldState}
    → transfer ws from to value ≡ (ws', ok tt)
    → (ws' ≡ after_transfer ws from to value)
      × (f : Account) × (lookup from ws.accounts ≡ some f)
      × (0 < value)
      × (value ≤ f.balance)
unfolding transfer
transfer-inv ws from to value h = elim (Option-cases (lookup from ws.accounts)) [
  | inl miss ↦ absurd (ground (arith, miss))
  | inr (f, hit) ↦ (ground (arith, hit), f, hit, ground (arith, hit), ground (arith, hit))
]

-- A transfer goes through exactly when the value is positive and the sender's balance covers it, a
-- missing account counting as 0; where it returns an error the state is the one before the call.
pub transfer_ok_iff :
    (ws : WorldState) (from to : Address) (value : ℕ)
    → (((transfer ws from to value).1 ≡ ok tt) ↔ ((0 < value) × (value ≤ get_balance ws from)))
      × ((e : Error) → (transfer ws from to value).1 ≡ err e → (transfer ws from to value).0 ≡ ws)
unfolding transfer get_balance
transfer_ok_iff ws from to value = elim (Option-cases (lookup from ws.accounts)) [
  | inl miss ↦ (ground (arith, miss), λ e h. ground (arith, miss))
  | inr (f, hit) ↦ (ground (arith, hit), λ e h. ground (arith, hit))
]

-- The account at `a` once a transfer has gone through.
lookup-after :
    (ws : WorldState) (from to a : Address) (value : ℕ) {f : Account}
    → lookup from ws.accounts ≡ some f
    → (from =? to) ≡ false
    → lookup a (after_transfer ws from to value).accounts ≡ (
        if to =? a
        then some (credit value (account_or_new (lookup to ws.accounts)))
        else (if from =? a then some (debit value f) else lookup a ws.accounts))
lookup-after ws from to a value {f} hit apart = ground (
  arith,
  lookup-update to a (credit value) (update from (debit value) (ensure to ws.accounts)),
  lookup-update from a (debit value) (ensure to ws.accounts),
  lookup-update from to (debit value) (ensure to ws.accounts),
  lookup-ensure to a ws.accounts,
  lookup-ensure to from ws.accounts,
  lookup-ensure to to ws.accounts,
  bytes_beq_iff from to,
  bytes_beq_iff to from,
  bytes_beq_iff to to,
  bytes_beq_iff to a,
  bytes_beq_iff from a,
  hit,
)

-- The receiver's balance does not overflow: with the debit made, the value fits beside it.
room-for-credit :
    (ws : WorldState) (from to : Address) (value : ℕ) {f : Account}
    → lookup from ws.accounts ≡ some f
    → (from =? to) ≡ false
    → value ≤ f.balance
    → balance_of (account_or_new (lookup to ws.accounts)) + value ≤ supply ws
room-for-credit ws from to value {f} hit apart le = ground (
  arith,
  value-le-sum_by balance_of to (update from (debit value) (ensure to ws.accounts)),
  sum_by-update balance_of from (debit value) (ensure to ws.accounts) {v = f} (
      ground (
        arith,
        lookup-ensure to from ws.accounts,
        bytes_beq_iff to from,
        bytes_beq_iff from to,
        hit,
      )),
  sum_by-ensure balance_of new_account-balance to ws.accounts,
  lookup-update from to (debit value) (ensure to ws.accounts),
  lookup-ensure to to ws.accounts,
  bytes_beq_iff to to,
  apart,
)

-- A transfer between two accounts that succeeds takes the value from the sender's balance and adds
-- it to the receiver's, without a wrap as long as the supply is below 2^64; every other balance and
-- every nonce stays.
pub transfer_moves :
    (ws : WorldState) (from to : Address) (value : ℕ) {ws' : WorldState}
    → transfer ws from to value ≡ (ws', ok tt)
    → from ≢ to
    → supply ws < 2 ^ 64
    → (get_balance ws' from + value ≡ get_balance ws from)
      × (get_balance ws' to ≡ get_balance ws to + value)
      × ((a : Address) → a ≢ from → a ≢ to → get_balance ws' a ≡ get_balance ws a)
      × ((a : Address) → get_nonce ws' a ≡ get_nonce ws a)
unfolding get_balance get_nonce new_account
transfer_moves ws from to value {ws'} done distinct fits =
    let (same, f, hit, positive, covered) = transfer-inv ws from to value done in
    let apart : (from =? to) ≡ false = ground (arith, bytes_beq_iff from to) in
    let at = λ (a : Address). lookup-after ws from to a value hit apart in
    let room = room-for-credit ws from to value hit apart covered in
    rw same (
      ground (arith, at from, bytes_beq_iff to from, bytes_beq_iff from from, hit),
      ground (arith, at to, bytes_beq_iff to to, room),
      λ a nf nt. ground (arith, at a, bytes_beq_iff to a, bytes_beq_iff from a),
      λ a. ground (arith, at a, bytes_beq_iff to a, bytes_beq_iff from a, hit),
    )

-- A transfer to oneself that succeeds goes through one account object twice, and leaves every
-- balance, as long as the supply is below 2^64.
pub transfer_self :
    (ws : WorldState) (who : Address) (value : ℕ) {ws' : WorldState}
    → transfer ws who who value ≡ (ws', ok tt)
    → supply ws < 2 ^ 64
    → (a : Address) → get_balance ws' a ≡ get_balance ws a
unfolding get_balance
transfer_self ws who value done fits a =
    let (same, f, hit, positive, covered) = transfer-inv ws who who value done in
    rw same (
      ground (
        arith,
        lookup-update who a (credit value) (update who (debit value) (ensure who ws.accounts)),
        lookup-update who a (debit value) (ensure who ws.accounts),
        lookup-update who who (debit value) (ensure who ws.accounts),
        lookup-ensure who a ws.accounts,
        lookup-ensure who who ws.accounts,
        bytes_beq_iff who who,
        bytes_beq_iff who a,
        value-le-sum_by balance_of who ws.accounts,
        hit,
      ))
