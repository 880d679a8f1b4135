-- ===== src/Core/Storage/LevelDb.antt =====
-- core/leveldb_storage.go: `LevelDBStore`, over the LevelDB library. Opening and closing the database
-- are left out.
pub mod Keys
pub mod Puts
pub mod Agreement
use blockz.Prelude.{ℕ, ◌/◌, ◌%◌, ◌^◌, ◌≡◌, List, [], ◌∷◌, ◌++◌, if◌then◌else◌, ◌=?◌, bytes_eq}
use blockz.Result.{Result, ok, ◌>>=◌, and_then, attempt, or_error, block_not_found, tx_not_found}
use blockz.Types.{Bytes, Hash, hash_to_slice}
use blockz.Core.Data.{Transaction, Block, Primitives}
use blockz.Core.Transaction.{tx_hash}
use blockz.Core.Block.{block_hash}
use blockz.Core.Codec.{Codec}

-- The database: `Get` after a `Put` that succeeded finds what was put, and under another key what was
-- there before.
pub record Database (D : Type 0) : Type 0 where
  pub put : D → Bytes → Bytes → D × Result (Unit {0})
  pub get : D → Bytes → Result Bytes
  pub get-put :
      (d d' : D) (key value : Bytes)
      → put d key value ≡ (d', ok tt)
      → (other : Bytes) → get d' other ≡ (if key =? other then ok value else get d other)

-- "block_", "blockhash_" and "tx_"
abbrev pub block_prefix : Bytes
block_prefix = 98 ∷ 108 ∷ 111 ∷ 99 ∷ 107 ∷ 95 ∷ []

abbrev pub block_hash_prefix : Bytes
block_hash_prefix = 98 ∷ 108 ∷ 111 ∷ 99 ∷ 107 ∷ 104 ∷ 97 ∷ 115 ∷ 104 ∷ 95 ∷ []

abbrev pub tx_prefix : Bytes
tx_prefix = 116 ∷ 120 ∷ 95 ∷ []

-- The four bytes of a `uint32`, the highest first
unfoldable pub height_to_bytes : ℕ → Bytes
height_to_bytes h = h / 2 ^ 24 % 256 ∷ h / 2 ^ 16 % 256 ∷ h / 2 ^ 8 % 256 ∷ h % 256 ∷ []

-- The keys that the methods build
abbrev pub height_key : ℕ → Bytes
height_key h = block_prefix ++ height_to_bytes h

abbrev pub block_hash_key : Hash → Bytes
block_hash_key h = block_hash_prefix ++ hash_to_slice h

abbrev pub tx_key : Hash → Bytes
tx_key h = tx_prefix ++ hash_to_slice h

module _ {D : Type 0} (db : Database D) (prims : Primitives) (codec : Codec prims) where
  -- The loop of `Put` over the transactions
  unfoldable pub put_transactions : List Transaction → D → D × Result (Unit {0})
  put_transactions [] d = (d, ok tt)
  put_transactions (tx ∷ txx) d =
      and_then
        (attempt d (prims.encode_tx tx) λ bytes. db.put d (tx_key (tx_hash prims tx).1) bytes)
        λ d'. put_transactions txx d'

  -- The part of `Put` behind the encoder
  unfoldable pub put_data : Block → Bytes → D → D × Result (Unit {0})
  put_data b bytes d =
      and_then
        (and_then (db.put d (height_key b.header.height) bytes)
          λ d'. db.put d' (block_hash_key (block_hash prims b).1) bytes)
        λ d'. put_transactions b.transactions d'

  unfoldable pub put : D → Block → D × Result (Unit {0})
  put d b = attempt d (codec.encode_block b) λ bytes. put_data b bytes d

  unfoldable pub get : D → ℕ → Result Block
  get d height =
      or_error block_not_found (db.get d (height_key height)) >>= λ bytes. codec.decode_block bytes

  unfoldable pub get_by_hash : D → Hash → Result Block
  get_by_hash d h =
      or_error block_not_found (db.get d (block_hash_key h)) >>= λ bytes. codec.decode_block bytes

  unfoldable pub get_tx_by_hash : D → Hash → Result Transaction
  get_tx_by_hash d h =
      or_error tx_not_found (db.get d (tx_key h)) >>= λ bytes. codec.decode_tx bytes
