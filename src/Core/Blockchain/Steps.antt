-- ===== src/Core/Blockchain/Steps.antt =====
-- What a successful `AddBlock` has done, part by part.
use blockz.Prelude.{
  ℕ, ◌≡◌, sym, ap, ◌∙◌, [], ◌∷◌, ◌++◌, some, arith, Option-cases, some_inj, inl, inr, bytes_eq,
}
use blockz.Result.{and_then, and_then-ok, Result, ok, Result-cases}
use blockz.Core.WorldState.{WorldState, add_balance}
use blockz.Core.Data.{Header, Block, Primitives}
use blockz.Core.Block.{block_verify}
use blockz.Core.Consensus.{ConsensusEngine}
use blockz.Core.Storage.{Storage}
use blockz.Core.Blockchain.{
  Blockchain, execute_all, check_consensus, check_link, validate_block, settle, add_weight,
  put_block, add_block_without_validation, apply_block, add_block,
}

module _ {T C : Type 0} (store : Storage T) (engine : ConsensusEngine C) (prims : Primitives) where
  -- What the parts of the chain that a validation or a weight leaves alone are.
  pub record Keeps (bc bc' : Blockchain T C) : Type 0 where
    pub same_store : bc'.store ≡ bc.store
    pub same_headers : bc'.headers ≡ bc.headers
    pub same_world : bc'.world_state ≡ bc.world_state

  check_consensus-Keeps :
      (h : Header) (bc : Blockchain T C) → Keeps bc (check_consensus store engine prims h bc).0
  unfolding check_consensus
  check_consensus-Keeps h bc = ground arith

  -- A validation that succeeds has found the link, has had the block verified, and has changed the
  -- engine at most.
  pub validate_block-inv :
      (b : Block) (bc : Blockchain T C) {bc' : Blockchain T C}
      → validate_block store engine prims b bc ≡ (bc', ok tt)
      → (check_link store engine prims b bc ≡ ok tt) × (block_verify prims b ≡ ok tt) × Keeps bc bc'
  unfolding validate_block
  validate_block-inv b bc {bc'} done =
      let part =
        and_then (bc, check_link store engine prims b bc)
          (check_consensus store engine prims b.header) in
      let (fine, verified) = and_then-ok part (λ s. (s, block_verify prims b)) done in
      let (linked, checked) =
        and_then-ok (bc, check_link store engine prims b bc)
          (check_consensus store engine prims b.header) {s' = part.0}
          (ap (λ r. (part.0, r)) fine) in
      let same : (check_consensus store engine prims b.header bc).0 ≡ bc' =
        ap (λ (q : Blockchain T C × Result (Unit {0})). q.0) checked
        ∙ ap (λ (q : Blockchain T C × Result (Unit {0})). q.0) verified in
      (
        linked,
        ap (λ (q : Blockchain T C × Result (Unit {0})). q.1) verified,
        rw same at (check_consensus-Keeps b.header bc),
      )

  add_weight-Keeps :
      (h : Header) (bc : Blockchain T C) → Keeps bc (add_weight store engine prims h bc).0
  unfolding add_weight
  add_weight-Keeps h bc = ground arith

  -- A block that goes on top without a validation: its header is last, and the store has it.
  pub add_block_without_validation-inv :
      (b : Block) (bc : Blockchain T C) {bc' : Blockchain T C}
      → add_block_without_validation store engine prims b bc ≡ (bc', ok tt)
      → (bc'.headers ≡ bc.headers ++ b.header ∷ [])
        × (bc'.world_state ≡ bc.world_state)
        × (store.put bc.store b ≡ (bc'.store, ok tt))
  unfolding add_block_without_validation put_block
  add_block_without_validation-inv b bc {bc'} done =
      let on_top : Blockchain T C = record bc { headers = bc.headers ++ b.header ∷ [] } in
      let weighed = add_weight store engine prims b.header on_top in
      let (fine, put) = and_then-ok weighed (put_block store engine prims b) done in
      let keeps = add_weight-Keeps b.header on_top in
      let at_store : store.put weighed.0.store b ≡ (bc'.store, ok tt) =
        λ i. ((put i).0.store, (put i).1) in
      (
        (λ i. (sym put i).0.headers) ∙ keeps.same_headers,
        (λ i. (sym put i).0.world_state) ∙ keeps.same_world,
        rw keeps.same_store at at_store,
      )

  pub apply_block-inv :
      (fuel : ℕ) (b : Block) (bc : Blockchain T C) {bc' : Blockchain T C}
      → apply_block store engine prims fuel b bc ≡ some (bc', ok tt)
      → (ws : WorldState) × (execute_all prims fuel b.transactions bc.world_state
          ≡ some (ws, ok tt))
        × (bc'.headers ≡ bc.headers ++ b.header ∷ [])
        × (bc'.world_state ≡ add_balance ws b.header.coinbase 5)
        × (store.put bc.store b ≡ (bc'.store, ok tt))
  unfolding apply_block
  apply_block-inv fuel b bc {bc'} done =
      elim (Option-cases (execute_all prims fuel b.transactions bc.world_state)) [
        | inl on ↦ absurd (cc (rw (apply_block, on) at done))
        | inr (p, executed) ↦
            let executed_bc : Blockchain T C = record bc { world_state = p.0 } in
            let top = λ (s : Blockchain T C).
              add_block_without_validation store engine prims b (settle store engine prims b s) in
            let (fine, added) =
              and_then-ok (executed_bc, p.1) top (some_inj (rw (apply_block, executed) at done)) in
            let (headers, world, put) =
              add_block_without_validation-inv b (settle store engine prims b executed_bc) added in
            (
              p.0,
              executed ∙ ap (λ r. some (p.0, r)) fine,
              unfold settle in headers,
              unfold settle in world,
              unfold settle in put,
            )
      ]

  pub add_block-inv :
      (fuel : ℕ) (b : Block) (bc : Blockchain T C) {bc' : Blockchain T C}
      → add_block store engine prims fuel b bc ≡ some (bc', ok tt)
      → (check_link store engine prims b bc ≡ ok tt)
        × (block_verify prims b ≡ ok tt)
        × (ws : WorldState) × (execute_all prims fuel b.transactions bc.world_state
            ≡ some (ws, ok tt))
        × (bc'.headers ≡ bc.headers ++ b.header ∷ [])
        × (bc'.world_state ≡ add_balance ws b.header.coinbase 5)
        × (store.put bc.store b ≡ (bc'.store, ok tt))
  unfolding add_block
  add_block-inv fuel b bc {bc'} done =
      let v = validate_block store engine prims b bc in
      elim (Result-cases v.1) [
        | inl (u, fine) ↦
            let (linked, verified, keeps) =
              validate_block-inv b bc {bc' = v.0} (ap (λ r. (v.0, r)) fine) in
            let (ws, executed, headers, world, put) =
              apply_block-inv fuel b v.0 (rw (add_block, fine) at done) in
            (
              linked,
              verified,
              ws,
              rw keeps.same_world at executed,
              rw keeps.same_headers at headers,
              world,
              rw keeps.same_store at put,
            )
        | inr (inl (e, bad)) ↦ absurd (cc (rw (add_block, bad) at done))
        | inr (inr (p, bad)) ↦ absurd (cc (rw (add_block, bad) at done))
      ]
