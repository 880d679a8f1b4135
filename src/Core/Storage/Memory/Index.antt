-- ===== src/Core/Storage/Memory/Index.antt =====
-- What the in-memory store gives back: the laws of `Storage`, and the two indices by hash.
use blockz.Prelude.{
  ℕ, ◌≡◌, refl, ap, List, [], ◌∷◌, Option, none, some, ◌==◌, if◌then◌else◌, ◌=?◌, nat_eq, bytes_eq,
  arith,
}
use blockz.Result.{Result, ok}
use blockz.Map.{Map, lookup, insert}
use blockz.Map.Laws.{lookup-insert}
use blockz.Types.{Hash}
use blockz.Core.Data.{Transaction, Block, Primitives}
use blockz.Core.Transaction.{tx_hash}
use blockz.Core.Block.{block_hash}
use blockz.Core.Storage.{Storage}
use blockz.Core.Storage.Memory.{
  MemoryStore, with_hashes, index_transactions, put, get, get_by_hash, get_tx_by_hash,
}

module _ (prims : Primitives) where
  block_hash-header : (b : Block) → (block_hash prims b).0.header ≡ b.header
  unfolding block_hash
  block_hash-header b = ground arith

  pub with_hashes-header : (b : Block) → (with_hashes prims b).header ≡ b.header
  unfolding with_hashes
  with_hashes-header b = block_hash-header b

  pub get-put :
      (s s' : MemoryStore) (b : Block)
      → put prims s b ≡ (s', ok tt)
      → (height : ℕ)
      → get s' height
        ≡ (if b.header.height == height then ok (with_hashes prims b) else get s height)
  unfolding put get
  get-put s s' b done height =
      rw (← ap (λ (p : MemoryStore × Result (Unit {0})). p.0) done)
        (ground (arith, lookup-insert b.header.height height (with_hashes prims b) s.blocks))

  abbrev pub memory_storage : Storage MemoryStore
  memory_storage = record {
    put = put prims;
    get = get;
    get_by_hash = get_by_hash;
    get_tx_by_hash = get_tx_by_hash;
    kept = with_hashes prims;
    kept_header = with_hashes-header;
    get-put = λ s s' b done fits height small. get-put s s' b done height;
  }

  -- The last transaction of a list with a hash.
  unfoldable pub last_with : Hash → List Transaction → Option Transaction
  last_with h [] = none
  last_with h (tx ∷ txx) = elim (last_with h txx) [
    | some later ↦ some later
    | none ↦ if (tx_hash prims tx).1 =? h then some (tx_hash prims tx).0 else none
  ]

  lookup-index_transactions :
      (h : Hash) (txx : List Transaction) (m : Map Hash Transaction)
      → lookup h (index_transactions prims txx m)
        ≡ elim (last_with h txx) [ none ↦ lookup h m | some tx ↦ some tx ]
  unfolding index_transactions last_with
  lookup-index_transactions h [] m = refl
  lookup-index_transactions h (tx ∷ txx) m = ground (
    arith,
    lookup-index_transactions h txx (insert (tx_hash prims tx).1 (tx_hash prims tx).0 m),
    lookup-insert (tx_hash prims tx).1 h (tx_hash prims tx).0 m,
  )

  -- After a block was put, its hash and its height lead to it and every other hash and height to what
  -- they led to before; a transaction hash leads to the last of the block's transactions with that
  -- hash, and where the block has none, to what it led to before.
  pub put-finds :
      (s : MemoryStore) (b : Block) (h : Hash) (height : ℕ)
      → (get_by_hash (put prims s b).0 h
          ≡ (if (block_hash prims b).1 =? h then ok (with_hashes prims b) else get_by_hash s h))
        × (get (put prims s b).0 height
            ≡ (if b.header.height == height then ok (with_hashes prims b) else get s height))
        × (get_tx_by_hash (put prims s b).0 h
            ≡ elim (last_with h b.transactions) [ none ↦ get_tx_by_hash s h | some tx ↦ ok tx ])
  unfolding put get get_by_hash get_tx_by_hash
  put-finds s b h height =
      let cached = with_hashes prims b in
      (
        ground (arith, lookup-insert (block_hash prims b).1 h cached s.block_by_hash),
        ground (arith, lookup-insert b.header.height height cached s.blocks),
        ground (arith, lookup-index_transactions h b.transactions s.tx_by_hash),
      )
