-- ===== src/Tests/Chain.antt =====
-- Blocks put on a chain of one block.
use blockz.Prelude.{
  ℕ, false, zero, suc, ◌+◌, ◌≡◌, ◌≢◌, refl, [], ◌∷◌, ◌++◌, Option, none, some, get_elem?, arith,
  some_inj,
}
use blockz.Result.{Result, ok, err, insufficient_balance, block_not_found}
use blockz.Core.WorldState.{WorldState}
use blockz.Core.WorldState.Supply.{supply}
use blockz.Core.Data.{Header, Transaction, Block}
use blockz.Core.Block.{block_hasher}
use blockz.Core.Storage.Memory.{MemoryStore, new_memory_storage, put}
use blockz.Core.Storage.Memory.Index.{memory_storage}
use blockz.Core.Storage.{Storage}
use blockz.Types.{zero_hash}
use blockz.Core.Storage.Memory.Index.{last_with}
use blockz.Core.Blockchain.Reads.{get_block_at, get_block_by_hash, get_tx_by_hash, add_block-finds}
use blockz.Prelude.{if◌then◌else◌, ◌=?◌, ◌==◌, bytes_eq}
use blockz.Core.Consensus.{ConsensusEngine}
use blockz.Types.{is_zero, address_from_bytes}
use blockz.Map.{lookup, insert}
use blockz.Core.WorldState.{transfer, increment_nonce, add_balance}
use blockz.Core.Transaction.{
  key_to_slice, key_address, signature_verify, tx_verify, tx_hasher, tx_hash,
}
use blockz.Core.Block.{
  block_hash, encode_transactions, encode_evidence, calculate_data_hash, verify_transactions,
  block_verify,
}
use blockz.Core.Evm.Machine.{new_evm, decode, consume_gas}
use blockz.Core.Evm.Run.{exec, tick, run}
use blockz.Core.Storage.Memory.{with_hashes, index_transactions, get}
use blockz.Core.Evm.Word.{set_bytes_from, set_bytes}
use blockz.Consensus.Pow.{shifted_one, target, satisfies, verify_header, block_weight}
use blockz.Core.Blockchain.{
  has_block, get_header_locked, run_payload, apply_value, bump_sender, check_consensus, slash_all,
  add_weight, put_block, add_block_without_validation, settle, apply_block,
}
use blockz.Core.Blockchain.{
  Blockchain, height, check_link, validate_block, execute_transaction, execute_all, add_block,
}
use blockz.Core.Blockchain.Execution.{execute_all-supply}
use blockz.Core.Blockchain.Chain.{IsChain, add_block-IsChain, add_block-supply, add_block_returns}
use blockz.Core.Blockchain.Start.{
  empty_chain, new_blockchain, new_blockchain_restart, new_blockchain-IsChain,
}
use blockz.Core.Blockchain.Failures.{add_block_partial, add_block_weightless}
use blockz.Consensus.Pow.{PowEngine, pow_engine}
use blockz.Consensus.Pos.{PosEngine, new_pos_engine, pos_engine}
use blockz.Tests.{test_prims, two_accounts, test_tx, test_header, test_block}

abbrev test_engine : ConsensusEngine PowEngine
test_engine = pow_engine test_prims (λ n. false)

abbrev one_block : Blockchain MemoryStore PowEngine
one_block = record {
  store = (put test_prims new_memory_storage (test_block 0 [])).0;
  headers = test_header 0 ∷ [];
  consensus = some (record { target_difficulty = 4 });
  world_state = two_accounts;
  total_difficulty = some 0;
}

abbrev next_block : Block
next_block = test_block 1 (test_tx ∷ [])

-- More than Alice has left after the first transfer
abbrev too_much : Transaction
too_much = record test_tx { payload = []; value = 8 }

abbrev bad_block : Block
bad_block = record (test_block 1 (test_tx ∷ too_much ∷ too_much ∷ [])) { evidence = [] }

abbrev state_of : Option (WorldState × Result (Unit {0})) → WorldState
state_of none = two_accounts
state_of (some p) = p.0

abbrev chain_of :
    Option (Blockchain MemoryStore PowEngine × Result (Unit {0})) → Blockchain MemoryStore PowEngine
chain_of none = one_block
chain_of (some p) = p.0

program : Unit {0}
unfolding address_from_bytes is_zero lookup insert transfer increment_nonce add_balance key_to_slice
    key_address signature_verify tx_verify tx_hasher tx_hash block_hasher block_hash
    encode_transactions encode_evidence calculate_data_hash verify_transactions block_verify new_evm
    decode consume_gas exec tick run with_hashes index_transactions put get set_bytes_from set_bytes
    shifted_one target satisfies verify_header block_weight pow_engine height has_block
    get_header_locked run_payload apply_value bump_sender execute_transaction execute_all
    check_consensus check_link validate_block slash_all add_weight put_block
    add_block_without_validation settle apply_block add_block
program = tt

abbrev memory : Storage MemoryStore
memory = memory_storage test_prims

abbrev two_blocks : Blockchain MemoryStore PowEngine
two_blocks = chain_of (add_block memory test_engine test_prims 101 next_block one_block)

added : add_block memory test_engine test_prims 101 next_block one_block ≡ some (two_blocks, ok tt)
unfolding program
added = refl

failed_state : WorldState
failed_state = state_of (execute_all test_prims 101 bad_block.transactions two_accounts)

failed :
    execute_all test_prims 101 bad_block.transactions two_accounts
    ≡ some (failed_state, err insufficient_balance)
unfolding program failed_state
failed = refl

validated : validate_block memory test_engine test_prims bad_block one_block ≡ (one_block, ok tt)
unfolding program
validated = refl

one_block-IsChain : IsChain memory test_engine test_prims one_block
unfolding program
one_block-IsChain = record {
  started = omega arith;
  short = omega arith;
  heights = (refl, tt);
  linked = tt;
  stored = at;
}
  where
    at :
        (i : ℕ) (h : Header)
        → get_elem? one_block.headers i ≡ some h
        → (b : Block) × (memory.get one_block.store i ≡ ok b) × (b.header ≡ h)
    at zero h found = (with_hashes test_prims (test_block 0 []), refl, some_inj found)
    at (suc zero) h found = absurd (cc found)
    at (suc (suc i)) h found = absurd (cc found)

-- The second block.
add_block-IsChain_example :
    IsChain memory test_engine test_prims two_blocks
    × (height two_blocks ≡ height one_block + 1)
    × (two_blocks.headers ≡ one_block.headers ++ next_block.header ∷ [])
add_block-IsChain_example =
    add_block-IsChain memory test_engine test_prims 101 next_block one_block {bc' = two_blocks}
      one_block-IsChain (omega arith) added

-- The two balances are 11 together, and 5 are minted.
add_block-supply_example : supply two_blocks.world_state ≡ supply two_accounts + 5
add_block-supply_example =
    add_block-supply memory test_engine test_prims 101 next_block one_block {bc' = two_blocks}
      (omega arith) added

-- A transaction with a gas limit of 100.
add_block_returns_example :
    (p : Blockchain MemoryStore PowEngine × Result (Unit {0})) × (add_block memory test_engine
        test_prims 101 next_block one_block
      ≡ some p)
add_block_returns_example =
    add_block_returns memory test_engine test_prims 101 next_block one_block
      ((omega arith, omega arith), tt)

abbrev moved_state : WorldState
unfolding program
moved_state = state_of (execute_all test_prims 101 (test_tx ∷ []) two_accounts)

moved : execute_all test_prims 101 (test_tx ∷ []) two_accounts ≡ some (moved_state, ok tt)
unfolding program
moved = refl

stopped :
    execute_transaction test_prims 101 too_much moved_state
    ≡ some (failed_state, err insufficient_balance)
unfolding program failed_state
stopped = refl

-- The first transaction moves 3, the second fails, and a third is behind it.
add_block_partial_example :
    (bc' : Blockchain MemoryStore PowEngine) × (add_block memory test_engine test_prims 101
        bad_block one_block
      ≡ some (bc', err insufficient_balance))
    × (bc'.world_state ≡ failed_state)
    × (bc'.headers ≡ one_block.headers)
    × (bc'.store ≡ one_block.store)
add_block_partial_example =
    add_block_partial memory test_engine test_prims 101 bad_block one_block (test_tx ∷ []) too_much
      (too_much ∷ []) {bc₁ = one_block} {ws₁ = moved_state} {ws₂ = failed_state}
      {e = insufficient_balance} refl validated moved stopped

abbrev pos_block : Blockchain MemoryStore PosEngine
pos_block = record {
  store = one_block.store;
  headers = one_block.headers;
  consensus = some new_pos_engine;
  world_state = two_accounts;
  total_difficulty = some 0;
}

-- A chain under the proof-of-stake engine.
add_block_weightless_example :
    add_block memory (pos_engine test_prims) test_prims 101 next_block pos_block
    ≢ some (pos_block, ok tt)
unfolding pos_engine
add_block_weightless_example =
    add_block_weightless memory (pos_engine test_prims) test_prims 101 next_block pos_block
      {c = new_pos_engine} {bc' = pos_block} refl refl

-- The transactions of the bad block.
execute_all-supply_example : supply failed_state ≡ supply two_accounts
execute_all-supply_example =
    execute_all-supply test_prims 101 bad_block.transactions two_accounts
      {p = (failed_state, err insufficient_balance)} (omega arith) failed

nothing_above : get one_block.store 1 ≡ err block_not_found
unfolding program
nothing_above = refl

-- A restart on the store of one block.
new_blockchain_restart_example :
    new_blockchain memory test_engine test_prims 9 (test_block 0 []) one_block.store
    ≡ some (
      record (empty_chain memory test_engine test_prims one_block.store) {
        headers = one_block.headers;
      },
      ok tt,
    )
new_blockchain_restart_example =
    new_blockchain_restart memory test_engine test_prims 9 (test_block 0 []) one_block
      {e = block_not_found} one_block-IsChain (omega arith) nothing_above

nothing_yet : get new_memory_storage 0 ≡ err block_not_found
unfolding program
nothing_yet = refl

abbrev fresh : Blockchain MemoryStore PowEngine
fresh =
    chain_of (new_blockchain memory test_engine test_prims 9 (test_block 0 []) new_memory_storage)

started :
    new_blockchain memory test_engine test_prims 9 (test_block 0 []) new_memory_storage
    ≡ some (fresh, ok tt)
unfolding program new_blockchain empty_chain
started = refl

-- A start on an empty store.
new_blockchain-IsChain_example :
    IsChain memory test_engine test_prims fresh × (fresh.headers ≡ test_header 0 ∷ [])
new_blockchain-IsChain_example =
    new_blockchain-IsChain memory test_engine test_prims 9 (test_block 0 []) new_memory_storage
      {e = block_not_found} {bc = fresh} nothing_yet refl started

-- The new block under its height, and the old one under the height 0.
add_block-finds_example :
    (get_block_by_hash memory zero_hash two_blocks ≡ (
      if (block_hash test_prims next_block).1 =? zero_hash
      then ok (with_hashes test_prims next_block)
      else get_block_by_hash memory zero_hash one_block))
    × (get_block_at memory 1 two_blocks ≡ (
        if next_block.header.height == 1
        then ok (with_hashes test_prims next_block)
        else get_block_at memory 1 one_block))
    × (get_tx_by_hash memory zero_hash two_blocks
        ≡ elim (last_with test_prims zero_hash next_block.transactions) [
          | none ↦ get_tx_by_hash memory zero_hash one_block
          | some tx ↦ ok tx
        ])
add_block-finds_example =
    add_block-finds test_engine test_prims 101 next_block one_block zero_hash 1 {bc' = two_blocks}
      added
