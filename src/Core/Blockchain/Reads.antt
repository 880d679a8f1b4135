-- ===== src/Core/Blockchain/Reads.antt =====
-- core/blockchain.go: the reads of full blocks and of transactions, which go to the store.
use blockz.Prelude.{ℕ, ◌≡◌, ap, none, some, if◌then◌else◌, ◌=?◌, ◌==◌, bytes_eq}
use blockz.Result.{Result, ok}
use blockz.Types.{Hash}
use blockz.Core.Data.{Transaction, Block, Primitives}
use blockz.Core.Block.{block_hash}
use blockz.Core.Consensus.{ConsensusEngine}
use blockz.Core.Storage.{Storage}
use blockz.Core.Storage.Memory.{MemoryStore, put, with_hashes}
use blockz.Core.Storage.Memory.Index.{memory_storage, last_with, put-finds}
use blockz.Core.Blockchain.{Blockchain, add_block}
use blockz.Core.Blockchain.Steps.{add_block-inv}

module _ {T C : Type 0} (store : Storage T) where
  unfoldable pub get_block_at : ℕ → Blockchain T C → Result Block
  get_block_at height bc = store.get bc.store height

  unfoldable pub get_block_by_hash : Hash → Blockchain T C → Result Block
  get_block_by_hash h bc = store.get_by_hash bc.store h

  unfoldable pub get_tx_by_hash : Hash → Blockchain T C → Result Transaction
  get_tx_by_hash h bc = store.get_tx_by_hash bc.store h

module _ {C : Type 0} (engine : ConsensusEngine C) (prims : Primitives) where
  -- Once `AddBlock` has succeeded on a chain over the store in memory, the block is found under its hash
  -- and under its height, and each of its transactions under its hash, the last one where several have
  -- one hash. Under every other hash and height is found what was found before.
  pub add_block-finds :
      (fuel : ℕ) (b : Block) (bc : Blockchain MemoryStore C) (h : Hash) (height : ℕ)
      {bc' : Blockchain MemoryStore C}
      → add_block (memory_storage prims) engine prims fuel b bc ≡ some (bc', ok tt)
      → (get_block_by_hash (memory_storage prims) h bc' ≡ (
          if (block_hash prims b).1 =? h
          then ok (with_hashes prims b)
          else get_block_by_hash (memory_storage prims) h bc))
        × (get_block_at (memory_storage prims) height bc' ≡ (
            if b.header.height == height
            then ok (with_hashes prims b)
            else get_block_at (memory_storage prims) height bc))
        × (get_tx_by_hash (memory_storage prims) h bc' ≡ elim (last_with prims h b.transactions) [
          | none ↦ get_tx_by_hash (memory_storage prims) h bc
          | some tx ↦ ok tx
        ])
  unfolding get_block_at get_block_by_hash get_tx_by_hash
  add_block-finds fuel b bc h height {bc'} done =
      let (_, _, _, _, _, _, stored) =
        add_block-inv (memory_storage prims) engine prims fuel b bc {bc' = bc'} done in
      let same : (put prims bc.store b).0 ≡ bc'.store = ap (λ p. p.0) stored in
      rw (← same) (put-finds prims bc.store b h height)
