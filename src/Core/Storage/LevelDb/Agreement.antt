-- ===== src/Core/Storage/LevelDb/Agreement.antt =====
-- core/leveldb_storage.go and core/storage.go: the two stores answer alike after the same `Put`s. The
-- one in memory gives back the objects that were put, the one on disk copies of what a gob carries.
use blockz.Prelude.{
  ℕ, ◌^◌, ◌<◌, ◌≡◌, refl, [], none, some, length, ◌==◌, if◌then◌else◌, ◌=?◌, bytes_eq, arith,
}
use blockz.Result.{Error, ok, err, map_ok}
use blockz.Types.{Bytes, Hash}
use blockz.Core.Data.{Block, Primitives}
use blockz.Core.Block.{block_hash}
use blockz.Core.Codec.{Codec, sent_tx, sent_block}
use blockz.Core.Storage.{Storage}
use blockz.Core.Storage.Memory
use blockz.Core.Storage.Memory.{MemoryStore, with_hashes, new_memory_storage}
use blockz.Core.Storage.Memory.Index.{last_with, put-finds}
use blockz.Core.Storage.LevelDb.{
  Database, height_key, block_hash_key, tx_key, put, get, get_by_hash, get_tx_by_hash,
}
use blockz.Map.{lookup}
use blockz.Core.Storage.LevelDb.Puts.{
  AreHashed, put_transactions-other, put_transactions-finds, put-inv, sent_with_hashes,
}
use blockz.Core.Storage.LevelDb.Keys.{
  height_key_beq, height_key_block, height_key_tx, block_hash_key_height, block_hash_key_tx,
  tx_key_height, tx_key_block, block_hash_key_beq,
}

module _ {D : Type 0} (db : Database D) (prims : Primitives) (codec : Codec prims) where
  -- A read of a height after a `Put`
  pub get-put :
      (d d' : D) (b : Block)
      → put db prims codec d b ≡ (d', ok tt)
      → b.header.height < 2 ^ 32
      → (height : ℕ) → height < 2 ^ 32
      → get db prims codec d' height
        ≡ (if b.header.height == height then ok (sent_block b) else get db prims codec d height)
  unfolding get
  get-put d d' b done fits height small =
      let (d₁, d₂, bytes, encoded, put₁, put₂, rest) = put-inv db prims codec b d {d' = d'} done in
      let key = height_key height in
      let r₁ = db.get-put d d₁ (height_key b.header.height) bytes put₁ key in
      let r₂ = db.get-put d₁ d₂ (block_hash_key (block_hash prims b).1) bytes put₂ key in
      let r₃ =
        put_transactions-other db prims codec b.transactions d₂ key (λ h. tx_key_height h height)
          rest in
      ground (
        arith,
        r₁,
        r₂,
        r₃,
        height_key_beq b.header.height height fits small,
        block_hash_key_height (block_hash prims b).1 height,
        codec.decode_encode_block b encoded,
      )

  get_by_hash-put :
      (d d' : D) (b : Block)
      → put db prims codec d b ≡ (d', ok tt)
      → length (block_hash prims b).1 ≡ 32
      → (h : Hash) → length h ≡ 32
      → get_by_hash db prims codec d' h ≡ (
          if (block_hash prims b).1 =? h then ok (sent_block b) else get_by_hash db prims codec d h)
  unfolding get_by_hash
  get_by_hash-put d d' b done fits h full =
      let (d₁, d₂, bytes, encoded, put₁, put₂, rest) = put-inv db prims codec b d {d' = d'} done in
      let key = block_hash_key h in
      let r₁ = db.get-put d d₁ (height_key b.header.height) bytes put₁ key in
      let r₂ = db.get-put d₁ d₂ (block_hash_key (block_hash prims b).1) bytes put₂ key in
      let r₃ =
        put_transactions-other db prims codec b.transactions d₂ key (λ k. tx_key_block k h) rest in
      ground (
        arith,
        r₁,
        r₂,
        r₃,
        height_key_block b.header.height h,
        block_hash_key_beq (block_hash prims b).1 h fits full,
        codec.decode_encode_block b encoded,
      )

  get_tx_by_hash-put :
      (d d' : D) (b : Block)
      → put db prims codec d b ≡ (d', ok tt)
      → AreHashed db prims codec b.transactions
      → (h : Hash) → length h ≡ 32
      → get_tx_by_hash db prims codec d' h ≡ elim (last_with prims h b.transactions) [
        | none ↦ get_tx_by_hash db prims codec d h
        | some tx ↦ ok (sent_tx tx)
      ]
  unfolding get_tx_by_hash
  get_tx_by_hash-put d d' b done hashed h full =
      let (d₁, d₂, bytes, encoded, put₁, put₂, rest) = put-inv db prims codec b d {d' = d'} done in
      let key = tx_key h in
      let r₁ = db.get-put d d₁ (height_key b.header.height) bytes put₁ key in
      let r₂ = db.get-put d₁ d₂ (block_hash_key (block_hash prims b).1) bytes put₂ key in
      let r₃ = put_transactions-finds db prims codec b.transactions d₂ h full hashed rest in
      ground (
        arith,
        r₁,
        r₂,
        r₃,
        height_key_tx b.header.height h,
        block_hash_key_tx (block_hash prims b).1 h,
      )

  -- The store on disk fills the interface of stores.
  abbrev pub level_db_storage : Storage D
  level_db_storage = record {
    put = put db prims codec;
    get = get db prims codec;
    get_by_hash = get_by_hash db prims codec;
    get_tx_by_hash = get_tx_by_hash db prims codec;
    kept = sent_block;
    kept_header = λ b. refl;
    get-put = get-put;
  }

  -- The store on disk gives back what the one in memory does, as a gob carries it.
  pub record Agrees (m : MemoryStore) (d : D) : Type 0 where
    pub heights :
        (height : ℕ)
        → height < 2 ^ 32
        → get db prims codec d height ≡ map_ok sent_block (Memory.get m height)
    pub hashes :
        (h : Hash)
        → length h ≡ 32
        → get_by_hash db prims codec d h ≡ map_ok sent_block (Memory.get_by_hash m h)
    pub txx :
        (h : Hash)
        → length h ≡ 32
        → get_tx_by_hash db prims codec d h ≡ map_ok sent_tx (Memory.get_tx_by_hash m h)

  -- Two stores that answer alike do so after the same block was put into both, where the database
  -- took it, its height is a `uint32`, and its hash and those of its transactions have 32 bytes: every
  -- height, block hash and transaction hash leads to the same block or transaction, up to the fields
  -- that a gob does not carry, or to the same error.
  pub put-Agrees :
      (m : MemoryStore) (d d' : D) (b : Block)
      → Agrees m d
      → b.header.height < 2 ^ 32
      → length (block_hash prims b).1 ≡ 32
      → AreHashed db prims codec b.transactions
      → put db prims codec d b ≡ (d', ok tt)
      → Agrees (Memory.put prims m b).0 d'
  put-Agrees m d d' b agrees fits full hashed done = record {
    heights = λ height small.
        let (_, read, _) = put-finds prims m b [] height in
        ground (
          arith,
          read,
          get-put d d' b done fits height small,
          agrees.heights height small,
          sent_with_hashes db prims codec b,
        );
    hashes = λ h full'.
        let (read, _, _) = put-finds prims m b h 0 in
        ground (
          arith,
          read,
          get_by_hash-put d d' b done full h full',
          agrees.hashes h full',
          sent_with_hashes db prims codec b,
        );
    txx = λ h full'.
        let (_, _, read) = put-finds prims m b h 0 in
        ground (arith, read, get_tx_by_hash-put d d' b done hashed h full', agrees.txx h full');
  }

  -- An empty database agrees with a new store in memory.
  pub new-Agrees :
      (d : D) {e : Error} → ((key : Bytes) → db.get d key ≡ err e) → Agrees new_memory_storage d
  unfolding get get_by_hash get_tx_by_hash Memory.get Memory.get_by_hash Memory.get_tx_by_hash
      lookup
  new-Agrees d {e} empty = record {
    heights = λ height small. rw (empty (height_key height));
    hashes = λ h full. rw (empty (block_hash_key h));
    txx = λ h full. rw (empty (tx_key h));
  }
