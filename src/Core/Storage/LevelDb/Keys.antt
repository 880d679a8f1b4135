-- ===== src/Core/Storage/LevelDb/Keys.antt =====
-- core/leveldb_storage.go: the keys of heights, block hashes and transaction hashes differ.
use blockz.Prelude.{ℕ, ◌^◌, ◌<◌, ◌≡◌, refl, ◌==◌, false, ◌=?◌, bytes_eq, arith, length}
use blockz.Types.{Hash, hash_to_slice, copy_bytes-length}
use blockz.Core.Storage.LevelDb.{height_to_bytes, height_key, block_hash_key, tx_key}

-- A `uint32` is known by its bytes.
pub height_key_beq : (h k : ℕ) → h < 2 ^ 32 → k < 2 ^ 32 → (height_key h =? height_key k) ≡ (h == k)
unfolding height_to_bytes
height_key_beq h k small small' = ground arith

pub height_key_block : (h : ℕ) (k : Hash) → (height_key h =? block_hash_key k) ≡ false
height_key_block h k = refl

pub height_key_tx : (h : ℕ) (k : Hash) → (height_key h =? tx_key k) ≡ false
height_key_tx h k = refl

pub block_hash_key_height : (h : Hash) (k : ℕ) → (block_hash_key h =? height_key k) ≡ false
block_hash_key_height h k = refl

pub block_hash_key_tx : (h k : Hash) → (block_hash_key h =? tx_key k) ≡ false
block_hash_key_tx h k = refl

pub tx_key_height : (h : Hash) (k : ℕ) → (tx_key h =? height_key k) ≡ false
tx_key_height h k = refl

pub tx_key_block : (h k : Hash) → (tx_key h =? block_hash_key k) ≡ false
tx_key_block h k = refl

pub block_hash_key_beq :
    (h k : Hash) → length h ≡ 32 → length k ≡ 32 → (block_hash_key h =? block_hash_key k) ≡ (h =? k)
unfolding hash_to_slice
block_hash_key_beq h k full full' = rw (copy_bytes-length 32 h full, copy_bytes-length 32 k full')

pub tx_key_beq : (h k : Hash) → length h ≡ 32 → length k ≡ 32 → (tx_key h =? tx_key k) ≡ (h =? k)
unfolding hash_to_slice
tx_key_beq h k full full' = rw (copy_bytes-length 32 h full, copy_bytes-length 32 k full')
