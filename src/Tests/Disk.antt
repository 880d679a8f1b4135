-- ===== src/Tests/Disk.antt =====
-- The store on disk and the pool at concrete inputs.
use blockz.Prelude.{◌≡◌, refl, [], arith}
use blockz.Result.{Result, ok, database_failure}
use blockz.Map.{Map, lookup, insert}
use blockz.Types.{Bytes, is_zero, hash_to_slice, copy_bytes}
use blockz.Core.Transaction.{tx_hash, tx_hasher}
use blockz.Core.Block.{block_hash, block_hasher}
use blockz.Core.Storage.Memory
use blockz.Core.Storage.Memory.{MemoryStore, new_memory_storage}
use blockz.Core.Storage.LevelDb.{height_to_bytes, put_transactions, put_data, put}
use blockz.Core.Storage.LevelDb.Agreement.{Agrees, new-Agrees, put-Agrees}
use blockz.Tests.Nodes.{
  net_prims, test_codec, test_db, known_block, db_put, db_get, encode_known, is_known,
  is_known_shape, header_beq,
}
use blockz.Core.Data.Equality.{transaction_beq, signature_beq, option_beq, int_beq, point_beq}

abbrev Disk : Type 0
Disk = Map Bytes Bytes

program : Unit {0}
unfolding is_zero hash_to_slice copy_bytes tx_hash tx_hasher block_hash block_hasher height_to_bytes
    put_transactions put_data put db_put db_get encode_known is_known is_known_shape header_beq
    transaction_beq signature_beq option_beq int_beq point_beq lookup insert
program = tt

abbrev disk_of : Disk × Result (Unit {0}) → Disk
disk_of p = p.0

full_disk : Disk
full_disk = disk_of (put test_db net_prims test_codec [] known_block)

stored : put test_db net_prims test_codec [] known_block ≡ (full_disk, ok tt)
unfolding program full_disk
stored = refl

empty-Agrees : Agrees test_db net_prims test_codec new_memory_storage []
unfolding program
empty-Agrees = new-Agrees test_db net_prims test_codec [] {e = database_failure} (λ key. refl)

-- A block with one transaction, into two empty stores.
put-Agrees_example :
    Agrees test_db net_prims test_codec
      (Memory.put net_prims new_memory_storage known_block).0
      full_disk
unfolding program
put-Agrees_example =
    put-Agrees test_db net_prims test_codec new_memory_storage [] full_disk known_block empty-Agrees
      (omega arith) refl (refl, tt) stored
