-- ===== src/Core/Blockchain/Failures.antt =====
-- Blocks that `AddBlock` refuses after it has validated them.
use blockz.Prelude.{
  ℕ, ◌≡◌, refl, sym, ap, ◌∙◌, List, [], ◌∷◌, ◌++◌, none, some, Option-cases, some_inj, inl, inr,
  bytes_eq, ◌≢◌,
}
use blockz.Result.{Result, ok, err, Error, Result-cases}
use blockz.Core.WorldState.{WorldState}
use blockz.Core.Data.{Transaction, Block, Primitives}
use blockz.Core.Consensus.{ConsensusEngine}
use blockz.Core.Storage.{Storage}
use blockz.Core.Blockchain.{
  Blockchain, check_link, check_consensus, add_block, execute_all, execute_transaction, apply_block,
  validate_block, check_consensus, check_link, add_weight, add_block_without_validation, settle,
}
use blockz.Core.Blockchain.Steps.{validate_block-inv}

module _ {T C : Type 0} (store : Storage T) (engine : ConsensusEngine C) (prims : Primitives) where
  execute_all-stops :
      (fuel : ℕ) (front : List Transaction) (bad : Transaction) (rest : List Transaction)
      (ws : WorldState) {ws₁ ws₂ : WorldState} {e : Error}
      → execute_all prims fuel front ws ≡ some (ws₁, ok tt)
      → execute_transaction prims fuel bad ws₁ ≡ some (ws₂, err e)
      → execute_all prims fuel (front ++ bad ∷ rest) ws ≡ some (ws₂, err e)
  unfolding execute_all
  execute_all-stops fuel [] bad rest ws {ws₁} {ws₂} {e} before failed =
      let here : ws₁ ≡ ws = ap (λ q. q.0) (some_inj (sym before)) in
      let now = ap (execute_transaction prims fuel bad) (sym here) ∙ failed in rw (execute_all, now)
  execute_all-stops fuel (tx ∷ front) bad rest ws {ws₁} {ws₂} {e} before failed =
      elim (Option-cases (execute_transaction prims fuel tx ws)) [
        | inl on ↦ absurd (cc (rw (execute_all, on) at before))
        | inr (p, executed) ↦ elim (Result-cases p.1) [
          | inr (inl (x, wrong)) ↦ absurd (
              cc (
                ap (λ (q : WorldState × Result (Unit {0})). q.1)
                  (some_inj (rw (execute_all, executed, wrong) at before))))
          | inr (inr (x, wrong)) ↦ absurd (
              cc (
                ap (λ (q : WorldState × Result (Unit {0})). q.1)
                  (some_inj (rw (execute_all, executed, wrong) at before))))
          | inl (u, fine) ↦
              rw (execute_all, executed, fine)
                (execute_all-stops fuel front bad rest p.0 {ws₁ = ws₁} {ws₂ = ws₂} {e = e}
                  (rw (execute_all, executed, fine) at before) failed)
        ]
      ]

  -- A block is valid, the transactions in front of one of its transactions succeed on the world state of
  -- the chain, and that one fails after them. The block is refused with the error of that
  -- transaction. The chain keeps its headers and its store, but its world state becomes the one that the
  -- failed transaction has left, with what those in front of it did; those behind it are not executed.
  pub add_block_partial :
      (fuel : ℕ) (b : Block) (bc : Blockchain T C) (front : List Transaction) (bad : Transaction)
      (rest : List Transaction) {bc₁ : Blockchain T C} {ws₁ ws₂ : WorldState} {e : Error}
      → b.transactions ≡ front ++ bad ∷ rest
      → validate_block store engine prims b bc ≡ (bc₁, ok tt)
      → execute_all prims fuel front bc.world_state ≡ some (ws₁, ok tt)
      → execute_transaction prims fuel bad ws₁ ≡ some (ws₂, err e)
      → (bc' : Blockchain T C) × (add_block store engine prims fuel b bc ≡ some (bc', err e))
        × (bc'.world_state ≡ ws₂)
        × (bc'.headers ≡ bc.headers)
        × (bc'.store ≡ bc.store)
  unfolding add_block apply_block
  add_block_partial fuel b bc front bad rest {bc₁} {ws₁} {ws₂} {e} listed valid before failed =
      let (_, _, keeps) = validate_block-inv store engine prims b bc {bc' = bc₁} valid in
      let stops =
        execute_all-stops fuel front bad rest bc.world_state {ws₁ = ws₁} {ws₂ = ws₂} {e = e} before
          failed in
      let here : execute_all prims fuel b.transactions bc₁.world_state ≡ some (ws₂, err e) =
        rw (keeps.same_world, listed) stops in
      let state : (validate_block store engine prims b bc).0 ≡ bc₁ =
        ap (λ (q : Blockchain T C × Result (Unit {0})). q.0) valid in
      let fine : (validate_block store engine prims b bc).1 ≡ ok tt =
        ap (λ (q : Blockchain T C × Result (Unit {0})). q.1) valid in
      (
        record bc₁ { world_state = ws₂ },
        rw (add_block, fine, state, apply_block, here)
            (ap (λ (s : Blockchain T C). some (record s { world_state = ws₂ }, err e)) state),
        refl,
        keeps.same_headers,
        keeps.same_store,
      )

  -- What has a chain whose engine is set.
  abbrev HasEngine : Blockchain T C → Type 0
  HasEngine bc = (c : C) × (bc.consensus ≡ some c)

  validate_block-HasEngine :
      (b : Block) (bc : Blockchain T C)
      → HasEngine bc
      → HasEngine (validate_block store engine prims b bc).0
  unfolding validate_block check_consensus
  validate_block-HasEngine b bc (c, set) =
      elim (Result-cases (check_link store engine prims b bc)) [
        | inr (inl (e, bad)) ↦ (c, rw (validate_block, bad) set)
        | inr (inr (p, bad)) ↦ (c, rw (validate_block, bad) set)
        | inl (u, fine) ↦ elim (Result-cases (engine.verify_header c b.header).1) [
          | inl (v, good) ↦ (
            (engine.verify_header c b.header).0,
            rw (validate_block, fine, check_consensus, set, good),
          )
          | inr (inl (e, bad)) ↦ (
            (engine.verify_header c b.header).0,
            rw (validate_block, fine, check_consensus, set, bad),
          )
          | inr (inr (p, bad)) ↦ (
            (engine.verify_header c b.header).0,
            rw (validate_block, fine, check_consensus, set, bad),
          )
        ]
      ]

  apply_block_weightless :
      (fuel : ℕ) (b : Block) (bc : Blockchain T C) {bc' : Blockchain T C}
      → HasEngine bc
      → engine.calculate_block_weight ≡ none
      → apply_block store engine prims fuel b bc ≢ some (bc', ok tt)
  unfolding apply_block settle add_block_without_validation add_weight
  apply_block_weightless fuel b bc {bc'} (c, set) weightless done =
      elim (Option-cases (execute_all prims fuel b.transactions bc.world_state)) [
        | inl on ↦ cc (rw (apply_block, on) at done)
        | inr (p, executed) ↦ elim (Result-cases p.1) [
          | inr (inl (e, bad)) ↦ cc (rw (apply_block, executed, bad) at done)
          | inr (inr (q, bad)) ↦ cc (rw (apply_block, executed, bad) at done)
          | inl (u, fine) ↦ cc (
              ap (λ (q : Blockchain T C × Result (Unit {0})). q.1)
                (some_inj (
                  rw
                    (
                      apply_block, executed, fine, add_block_without_validation, settle, add_weight,
                      set, weightless,
                    )
                    at done)))
        ]
      ]

  -- With an engine that gives blocks no weight, as the proof-of-stake engine does not, `AddBlock`
  -- accepts no block.
  pub add_block_weightless :
      (fuel : ℕ) (b : Block) (bc : Blockchain T C) {c : C} {bc' : Blockchain T C}
      → bc.consensus ≡ some c
      → engine.calculate_block_weight ≡ none
      → add_block store engine prims fuel b bc ≢ some (bc', ok tt)
  unfolding add_block
  add_block_weightless fuel b bc {c} {bc'} set weightless done =
      let v = validate_block store engine prims b bc in
      elim (Result-cases v.1) [
        | inl (u, fine) ↦
            apply_block_weightless fuel b v.0 {bc' = bc'} (validate_block-HasEngine b bc (c, set))
              weightless (rw (add_block, fine) at done)
        | inr (inl (e, bad)) ↦ cc (rw (add_block, bad) at done)
        | inr (inr (p, bad)) ↦ cc (rw (add_block, bad) at done)
      ]
