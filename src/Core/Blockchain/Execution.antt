-- ===== src/Core/Blockchain/Execution.antt =====
-- Executing transactions: it returns, it keeps the total of the balances, and what it leaves out.
use blockz.Prelude.{
  ℕ, ◌-◌, ◌^◌, ◌<◌, ◌≡◌, refl, ◌∙◌, List, [], ◌∷◌, Option, none, some, ltb, length, ◌==◌, arith,
  Bool-cases, Option-cases, inl, inr,
}
use mathlib.Core.Path.{subst}
use blockz.Result.{and_then, Result, ok, err, panic, ◌>>=◌, Result-cases}
use blockz.Core.WorldState.{WorldState}
use blockz.Core.WorldState.Contracts.{world_state_db}
use blockz.Core.WorldState.Supply.{
  supply, supply-transfer, supply-increment_nonce, supply-set_account_state,
}
use blockz.Core.Evm.Machine.{new_evm}
use blockz.Core.Evm.Run.{run}
use blockz.Core.Evm.Loop.{run_terminates}
use blockz.Core.Evm.Invariant.{run-state}
use blockz.Core.Data.{Transaction, Primitives}
use blockz.Core.Transaction.{key_address}
use blockz.Core.Blockchain.{run_payload, apply_value, bump_sender, execute_transaction, execute_all}

-- A gas limit under which the code of a transaction returns within `fuel` rounds.
abbrev pub IsBounded : ℕ → Transaction → Type 0
IsBounded fuel tx = (tx.gas_limit < 2 ^ 64 - 1) × (tx.gas_limit < fuel)

abbrev pub AreBounded : ℕ → List Transaction → Type 0
AreBounded fuel [] = Unit
AreBounded fuel (tx ∷ txx) = IsBounded fuel tx × AreBounded fuel txx

module _ (prims : Primitives) (fuel : ℕ) where
  run_payload_returns :
      (tx : Transaction) (ws : WorldState)
      → IsBounded fuel tx
      → (p : WorldState × Result (Unit {0})) × (run_payload prims fuel tx ws ≡ some p)
  unfolding run_payload
  run_payload_returns tx ws bounded = elim (Bool-cases (length tx.payload == 0)) [
    | inl no_code ↦ ((ws, ok tt), rw (run_payload, no_code))
    | inr code ↦ elim (Result-cases (key_address prims tx.from)) [
      | inr (inl (e, bad)) ↦ ((ws, err e), rw (run_payload, code, bad))
      | inr (inr (p, bad)) ↦ ((ws, panic p), rw (run_payload, code, bad))
      | inl (from, good) ↦
          let evm = new_evm tx.payload [] ws tx.to from tx.value tx.gas_limit in
          let (evm', r, done, _) =
            run_terminates prims.host fuel evm (unfold new_evm in omega arith)
              (unfold new_evm in omega arith) in
          ((evm'.state, r >>= λ _. ok tt), rw (run_payload, code, good, done))
    ]
  ]

  -- A transaction whose gas limit is below 2^64 - 1 is executed or refused: with more rounds than its
  -- limit the execution returns.
  pub execute_transaction_returns :
      (tx : Transaction) (ws : WorldState)
      → IsBounded fuel tx
      → (p : WorldState × Result (Unit {0})) × (execute_transaction prims fuel tx ws ≡ some p)
  unfolding execute_transaction
  execute_transaction_returns tx ws bounded =
      let (p, done) = run_payload_returns tx ws bounded in
      (
        and_then (and_then p (apply_value prims tx)) (bump_sender prims tx),
        rw (execute_transaction, done),
      )

  pub execute_all_returns :
      (txx : List Transaction) (ws : WorldState)
      → AreBounded fuel txx
      → (p : WorldState × Result (Unit {0})) × (execute_all prims fuel txx ws ≡ some p)
  unfolding execute_all
  execute_all_returns [] ws bounded = ((ws, ok tt), refl)
  execute_all_returns (tx ∷ txx) ws bounded =
      let (p, done) = execute_transaction_returns tx ws bounded.0 in
      elim (Result-cases p.1) [
        | inl (u, fine) ↦
            let (q, rest) = execute_all_returns txx p.0 bounded.1 in
            (q, rw (execute_all, done, fine) rest)
        | inr (inl (e, bad)) ↦ ((p.0, err e), rw (execute_all, done, bad))
        | inr (inr (e, bad)) ↦ ((p.0, panic e), rw (execute_all, done, bad))
      ]

  -- The state behind an execution that returned has the supply `n`.
  abbrev HasSupply : ℕ → Option (WorldState × Result (Unit {0})) → Type 0
  HasSupply n none = Unit
  HasSupply n (some p) = supply p.0 ≡ n

  run_payload-HasSupply :
      (tx : Transaction) (ws : WorldState) → HasSupply (supply ws) (run_payload prims fuel tx ws)
  unfolding run_payload new_evm
  run_payload-HasSupply tx ws = elim (Bool-cases (length tx.payload == 0)) [
    | inl no_code ↦ rw (run_payload, no_code)
    | inr code ↦ elim (Result-cases (key_address prims tx.from)) [
      | inr (inl (e, bad)) ↦ rw (run_payload, code, bad)
      | inr (inr (p, bad)) ↦ rw (run_payload, code, bad)
      | inl (from, good) ↦
          let evm = new_evm tx.payload [] ws tx.to from tx.value tx.gas_limit in
          elim (Option-cases (run prims.host fuel evm)) [
            | inl on ↦ rw (run_payload, code, good, on) tt
            | inr (p, done) ↦
                rw (run_payload, code, good, done)
                  (run-state prims.host (λ s. supply s ≡ supply ws)
                    (λ s a k v e. supply-set_account_state s a k v ∙ e) fuel evm {evm' = p.0}
                    {r = p.1} refl done)
          ]
    ]
  ]

  apply_value-supply :
      (tx : Transaction) (ws : WorldState)
      → supply ws < 2 ^ 64
      → supply (apply_value prims tx ws).0 ≡ supply ws
  unfolding apply_value
  apply_value-supply tx ws fits = elim (Bool-cases (ltb 0 tx.value)) [
    | inr nothing ↦ rw (apply_value, nothing)
    | inl value ↦ elim (Result-cases (key_address prims tx.from)) [
      | inl (from, good) ↦
          rw (apply_value, value, good) (supply-transfer ws from tx.to tx.value fits)
      | inr (inl (e, bad)) ↦ rw (apply_value, value, bad)
      | inr (inr (p, bad)) ↦ rw (apply_value, value, bad)
    ]
  ]

  bump_sender-supply :
      (tx : Transaction) (ws : WorldState) → supply (bump_sender prims tx ws).0 ≡ supply ws
  unfolding bump_sender
  bump_sender-supply tx ws = elim (Option-cases tx.signature) [
    | inl unsigned ↦ rw (bump_sender, unsigned)
    | inr (sig, signed) ↦ elim (Result-cases (key_address prims tx.from)) [
      | inl (from, good) ↦ rw (bump_sender, signed, good) (supply-increment_nonce ws from)
      | inr (inl (e, bad)) ↦ rw (bump_sender, signed, bad)
      | inr (inr (p, bad)) ↦ rw (bump_sender, signed, bad)
    ]
  ]

  and_then-supply :
      {n : ℕ} (p : WorldState × Result (Unit {0})) (f : WorldState → WorldState × Result (Unit {0}))
      → supply p.0 ≡ n
      → ((ws : WorldState) → supply ws ≡ n → supply (f ws).0 ≡ n)
      → supply (and_then p f).0 ≡ n
  and_then-supply (ws, ok u) f h k = k ws h
  and_then-supply (ws, err e) f h k = h
  and_then-supply (ws, panic p) f h k = h

  execute_transaction-HasSupply :
      (tx : Transaction) (ws : WorldState)
      → supply ws < 2 ^ 64
      → HasSupply (supply ws) (execute_transaction prims fuel tx ws)
  unfolding execute_transaction
  execute_transaction-HasSupply tx ws fits = elim (Option-cases (run_payload prims fuel tx ws)) [
    | inl on ↦ rw (execute_transaction, on) tt
    | inr (p, done) ↦
        rw (execute_transaction, done)
          (and_then-supply (and_then p (apply_value prims tx)) (bump_sender prims tx)
            (and_then-supply p (apply_value prims tx) (rw done at (run_payload-HasSupply tx ws))
              (λ s e. apply_value-supply tx s (omega arith) ∙ e))
            (λ s e. bump_sender-supply tx s ∙ e))
  ]

  execute_all-HasSupply :
      (txx : List Transaction) (ws : WorldState)
      → supply ws < 2 ^ 64
      → HasSupply (supply ws) (execute_all prims fuel txx ws)
  unfolding execute_all
  execute_all-HasSupply [] ws fits = refl
  execute_all-HasSupply (tx ∷ txx) ws fits =
      elim (Option-cases (execute_transaction prims fuel tx ws)) [
        | inl on ↦ rw (execute_all, on) tt
        | inr (p, done) ↦
            let same : supply p.0 ≡ supply ws =
              rw done at (execute_transaction-HasSupply tx ws fits) in
            elim (Result-cases p.1) [
              | inl (u, fine) ↦
                  rw (execute_all, done, fine)
                    (subst (λ n. HasSupply n (execute_all prims fuel txx p.0)) same
                      (execute_all-HasSupply txx p.0 (omega arith)))
              | inr (inl (e, bad)) ↦ rw (execute_all, done, bad) same
              | inr (inr (e, bad)) ↦ rw (execute_all, done, bad) same
            ]
      ]

  -- Transactions neither make nor destroy value: whether all of them are executed or one fails, the
  -- balances add up to what they did before, as long as that is below 2^64.
  pub execute_all-supply :
      (txx : List Transaction) (ws : WorldState) {p : WorldState × Result (Unit {0})}
      → supply ws < 2 ^ 64
      → execute_all prims fuel txx ws ≡ some p
      → supply p.0 ≡ supply ws
  execute_all-supply txx ws fits done = rw done at (execute_all-HasSupply txx ws fits)

  -- The nonce and the gas price of a transaction play no part in its execution: the same transfer
  -- with any other nonce has the same effect on the same state.
  pub execute_transaction_nonce :
      (tx : Transaction) (nonce gas_price : ℕ) (ws : WorldState)
      → execute_transaction prims fuel (record tx { nonce = nonce; gas_price = gas_price }) ws
        ≡ execute_transaction prims fuel tx ws
  unfolding execute_transaction run_payload apply_value bump_sender
  execute_transaction_nonce tx nonce gas_price ws = refl
