-- ===== src/Core/Blockchain/Start.antt =====
-- core/blockchain.go: the constructors of the chain. A store that has blocks gives back the headers.
use blockz.Prelude.{
  ℕ, zero, suc, ◌+◌, ◌%◌, ◌^◌, ◌<◌, ◌≡◌, refl, sym, ap, ◌∙◌, List, [], ◌∷◌, ◌++◌, Option, none,
  some, length, get_elem?, get_elem?-some, some_inj, arith,
}
use mathlib.Core.List.{append-nil, append_assoc}
use blockz.Result.{Result, Error, ok, err, panic}
use blockz.Core.WorldState.{WorldState, new_world_state}
use blockz.Core.Data.{Header, Block, Primitives}
use blockz.Core.Consensus.{ConsensusEngine}
use blockz.Core.Storage.{Storage}
use blockz.Core.Blockchain.{Blockchain, add_block_without_validation}
use blockz.Core.Blockchain.Steps.{add_block_without_validation-inv}
use blockz.Core.Blockchain.Chain.{IsChain, put-AreStored}

module _ {T C : Type 0} (store : Storage T) (engine : ConsensusEngine C) (prims : Primitives) where
  -- The loop of `loadHeaders` from height `i` on, which counts in a `uint32`; `none` means that it
  -- would go on after the given number of rounds.
  unfoldable pub load_from : ℕ → ℕ → Blockchain T C → Option (Blockchain T C × Result (Unit {0}))
  load_from zero i bc = none
  load_from (suc rounds) i bc = elim (store.get bc.store i) [
    | err e ↦ some (bc, ok tt)
    | panic p ↦ some (bc, panic p)
    | ok b ↦
        load_from rounds ((i + 1) % 2 ^ 32) (record bc { headers = bc.headers ++ b.header ∷ [] })
  ]

  -- The chain that `NewBlockchain` begins with
  unfoldable pub empty_chain : T → Blockchain T C
  empty_chain t = record {
    store = t;
    headers = [];
    consensus = none;
    world_state = new_world_state;
    total_difficulty = some 0;
  }

  -- `NewBlockchain`
  unfoldable pub new_blockchain : ℕ → Block → T → Option (Blockchain T C × Result (Unit {0}))
  new_blockchain rounds genesis t = elim (store.get t 0) [
    | err e ↦ some (add_block_without_validation store engine prims genesis (empty_chain t))
    | panic p ↦ some (empty_chain t, panic p)
    | ok b ↦ load_from rounds 0 (empty_chain t)
  ]

  -- `NewBlockchainWithState`, over a new store: the difficulty is left nil.
  unfoldable pub new_blockchain_with_state :
      Block → WorldState → T → Blockchain T C × Result (Unit {0})
  new_blockchain_with_state genesis ws fresh =
      add_block_without_validation store engine prims genesis
        (record (empty_chain fresh) { world_state = ws; total_difficulty = none })

  load_from_lem :
      (rounds i : ℕ) (bc : Blockchain T C) (rest : List Header) {e : Error}
      → length rest < rounds
      → i + length rest < 2 ^ 32
      → ((j : ℕ) (h : Header)
          → get_elem? rest j ≡ some h
          → (b : Block) × (store.get bc.store (i + j) ≡ ok b) × (b.header ≡ h))
      → store.get bc.store (i + length rest) ≡ err e
      → load_from rounds i bc ≡ some (record bc { headers = bc.headers ++ rest }, ok tt)
  unfolding load_from
  load_from_lem zero i bc rest {e} enough small there end = absurd (omega arith)
  load_from_lem (suc rounds) i bc [] {e} enough small there end =
      let here : store.get bc.store i ≡ err e =
        ap (store.get bc.store) {x = i} (omega arith) ∙ end in
      rw (load_from, here)
        (ap (λ hs. some (record bc { headers = hs }, ok tt)) (sym (append-nil bc.headers)))
  load_from_lem (suc rounds) i bc (h ∷ rest) {e} enough small there end =
      let (b, got, same) = there 0 h refl in
      let here : store.get bc.store i ≡ ok b =
        ap (store.get bc.store) {x = i} (omega arith) ∙ got in
      let next : (i + 1) % 2 ^ 32 ≡ suc i = omega arith in
      let longer : Blockchain T C = record bc { headers = bc.headers ++ b.header ∷ [] } in
      rw (load_from, here, next)
        (load_from_lem rounds (suc i) longer rest (omega arith) (omega arith)
            (λ j g found.
              let (b', got', same') = there (suc j) g found in
              (b', ap (store.get bc.store) {x = suc i + j} (omega arith) ∙ got', same'))
            (ap (store.get bc.store) {x = suc i + length rest} (omega arith) ∙ end)
          ∙ ap (λ hs. some (record bc { headers = hs }, ok tt))
              (append_assoc bc.headers (b.header ∷ []) rest
                ∙ ap (λ (x : Header). bc.headers ++ x ∷ rest) same))

  -- A restart on the store of a chain, with nothing at the height above the top and with more
  -- rounds than there are headers, brings back the headers and nothing else: the world state is
  -- empty, the total difficulty is 0 and no engine is set.
  pub new_blockchain_restart :
      (rounds : ℕ) (genesis : Block) (bc : Blockchain T C) {e : Error}
      → IsChain store engine prims bc
      → length bc.headers < rounds
      → store.get bc.store (length bc.headers) ≡ err e
      → new_blockchain rounds genesis bc.store
        ≡ some (record (empty_chain bc.store) { headers = bc.headers }, ok tt)
  unfolding new_blockchain empty_chain
  new_blockchain_restart rounds genesis bc {e} chain enough end =
      let (top, found) = get_elem?-some bc.headers 0 chain.started in
      let (b, here, same) = chain.stored 0 top found in
      rw (new_blockchain, here)
        (load_from_lem rounds 0 (empty_chain bc.store) bc.headers enough
          (omega (arith, chain.short))
          (λ j h found'.
            let (b', got, same') = chain.stored j h found' in
            (b', ap (store.get bc.store) {x = 0 + j} (omega arith) ∙ got, same'))
          (ap (store.get bc.store) {x = 0 + length bc.headers} (omega arith) ∙ end))

  -- A start that succeeds on a store with no block at height 0, from a genesis block at height 0,
  -- gives a chain whose only header is that of the genesis block.
  pub new_blockchain-IsChain :
      (rounds : ℕ) (genesis : Block) (t : T) {e : Error} {bc : Blockchain T C}
      → store.get t 0 ≡ err e
      → genesis.header.height ≡ 0
      → new_blockchain rounds genesis t ≡ some (bc, ok tt)
      → IsChain store engine prims bc × (bc.headers ≡ genesis.header ∷ [])
  unfolding new_blockchain
  new_blockchain-IsChain rounds genesis t {e} {bc} new low done =
      let (headers, _, put) =
        add_block_without_validation-inv store engine prims genesis (empty_chain t) {bc' = bc}
          (some_inj (rw (new_blockchain, new) at done)) in
      let alone : bc.headers ≡ genesis.header ∷ [] = unfold empty_chain in headers in
      let taken : store.put t genesis ≡ (bc.store, ok tt) = unfold empty_chain in put in
      let stored =
        put-AreStored store engine prims t bc.store [] genesis (λ i h found. absurd (cc found)) low
          (omega arith) taken in
      (
        record {
          started = rw alone (omega arith);
          short = rw alone (omega arith);
          heights = rw alone (low, tt);
          linked = rw alone tt;
          stored = rw alone stored;
        },
        alone,
      )
