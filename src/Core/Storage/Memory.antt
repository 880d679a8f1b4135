-- ===== src/Core/Storage/Memory.antt =====
-- `MemoryStore`: blocks by height and by hash, transactions by hash. `Put` asks the block and its
-- transactions for their hashes, which these then keep.
pub mod Index
use blockz.Prelude.{
  ℕ, ◌≡◌, refl, ap, ◌∙◌, List, [], ◌∷◌, Option, none, some, map, ◌==◌, if◌then◌else◌, ◌=?◌, nat_eq,
  bytes_eq, arith,
}
use blockz.Result.{Result, ok, err, block_not_found, tx_not_found}
use blockz.Map.{Map, lookup, insert}
use blockz.Map.Laws.{lookup-insert}
use blockz.Types.{Hash}
use blockz.Core.Data.{Transaction, Header, Block, Primitives}
use blockz.Core.Transaction.{tx_hash}
use blockz.Core.Block.{block_hash}

pub record MemoryStore : Type 0 where
  pub blocks : Map ℕ Block
  pub block_by_hash : Map Hash Block
  pub tx_by_hash : Map Hash Transaction

abbrev pub new_memory_storage : MemoryStore
new_memory_storage = record { blocks = []; block_by_hash = []; tx_by_hash = [] }

module _ (prims : Primitives) where
  -- The block once its hash and those of its transactions have been asked for.
  unfoldable pub with_hashes : Block → Block
  with_hashes b = record (block_hash prims b).0 {
    transactions = map (λ tx. (tx_hash prims tx).0) b.transactions;
  }

  -- The loop of `Put` over the transactions
  unfoldable pub index_transactions : List Transaction → Map Hash Transaction → Map Hash Transaction
  index_transactions [] m = m
  index_transactions (tx ∷ txx) m =
      let (cached, h) = tx_hash prims tx in index_transactions txx (insert h cached m)

  unfoldable pub put : MemoryStore → Block → MemoryStore × Result (Unit {0})
  put s b =
      let cached = with_hashes b in
      (
        record {
          blocks = insert b.header.height cached s.blocks;
          block_by_hash = insert (block_hash prims b).1 cached s.block_by_hash;
          tx_by_hash = index_transactions b.transactions s.tx_by_hash;
        },
        ok tt,
      )

unfoldable pub get : MemoryStore → ℕ → Result Block
get s height = elim (lookup height s.blocks) [ none ↦ err block_not_found | some b ↦ ok b ]

unfoldable pub get_by_hash : MemoryStore → Hash → Result Block
get_by_hash s h = elim (lookup h s.block_by_hash) [ none ↦ err block_not_found | some b ↦ ok b ]

unfoldable pub get_tx_by_hash : MemoryStore → Hash → Result Transaction
get_tx_by_hash s h = elim (lookup h s.tx_by_hash) [ none ↦ err tx_not_found | some tx ↦ ok tx ]
