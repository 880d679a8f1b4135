-- ===== src/Tests/Network.antt =====
-- Two nodes, one of them a block ahead of the other.
use blockz.Prelude.{
  ℕ, zero, suc, ◌≡◌, refl, List, [], ◌∷◌, Option, none, some, map, arith, some_inj, get_elem?,
}
use blockz.Result.{Result, ok}
use blockz.Map.{lookup, insert, has}
use blockz.Types.{is_zero, address_from_bytes}
use blockz.Core.WorldState.{transfer, increment_nonce, add_balance}
use blockz.Core.Data.{Header, Block}
use blockz.Core.Data.Equality.{transaction_beq, signature_beq, option_beq, int_beq, point_beq}
use blockz.Core.Codec.{sent_block}
use blockz.Core.Transaction.{
  key_to_slice, key_address, signature_verify, tx_verify, tx_hasher, tx_hash, set_first_seen,
}
use blockz.Core.Block.{
  block_hasher, block_hash, encode_transactions, encode_evidence, calculate_data_hash,
  verify_transactions, block_verify, new_block, new_block_from_prev_header, block_sign,
}
use blockz.Core.Evm.Machine.{new_evm, decode, consume_gas}
use blockz.Core.Evm.Run.{exec, tick, run}
use blockz.Core.Evm.Word.{set_bytes_from, set_bytes}
use blockz.Consensus.Pow.{
  PowEngine, shifted_one, target, satisfies, verify_header, block_weight, pow_engine, prepare, seal,
  seal_from,
}
use blockz.Core.Storage.Memory.{
  MemoryStore, new_memory_storage, with_hashes, index_transactions, put, get,
}
use blockz.Core.Blockchain.{
  Blockchain, height, get_header, has_block, get_header_locked, run_payload, apply_value,
  bump_sender, check_consensus, slash_all, add_weight, put_block, add_block_without_validation,
  settle, apply_block, check_link, validate_block, execute_transaction, execute_all, add_block,
  set_consensus,
}
use blockz.Core.Blockchain.Chain.{IsChain, add_block-IsChain}
use blockz.Core.Blockchain.Start.{empty_chain, new_blockchain}
use blockz.Types.Collection
use blockz.Network.SortedMap
use blockz.Network.SortedMap.{new_tx_sorted_map, count}
use blockz.Network.TxPool
use blockz.Network.TxPool.{TxPool, new_tx_pool, pending, prune}
use blockz.Network.Message.{NetAddr, new_message, payload_message}
use blockz.Network.Server.{Server, process_block, process_transaction, broadcast, broadcast_tx}
use blockz.Network.Server.Sync.{collect, last_wanted, add_blocks, process_blocks}
use blockz.Network.Server.Creation.{
  build_block, prepare_header, set_coinbase, seal_header, sign_block, genesis_block, new_server,
}
use blockz.Tests.{two_accounts, test_header, test_block}
use blockz.Tests.Nodes.{net_prims, known_block, encode_known, is_known, is_known_shape, header_beq}
use blockz.Tests.Wires.{Log, test_env}

unfoldable pub program : Unit {0}
unfolding address_from_bytes is_zero lookup insert has transfer increment_nonce add_balance
    transaction_beq signature_beq option_beq int_beq point_beq key_to_slice key_address
    signature_verify tx_verify tx_hasher tx_hash set_first_seen block_hasher block_hash
    encode_transactions encode_evidence calculate_data_hash verify_transactions block_verify
    new_block new_block_from_prev_header block_sign new_evm decode consume_gas exec tick run
    set_bytes_from set_bytes shifted_one target satisfies verify_header block_weight pow_engine
    prepare seal seal_from with_hashes index_transactions put get height get_header has_block
    get_header_locked run_payload apply_value bump_sender check_consensus slash_all add_weight
    put_block add_block_without_validation settle apply_block check_link validate_block
    execute_transaction execute_all add_block set_consensus empty_chain new_blockchain
    new_tx_sorted_map new_tx_pool pending prune new_message payload_message process_block
    process_transaction broadcast broadcast_tx collect last_wanted add_blocks process_blocks
    build_block prepare_header set_coinbase seal_header sign_block genesis_block new_server
    encode_known is_known is_known_shape header_beq TxPool.contains SortedMap.contains TxPool.add
    count SortedMap.add Collection.insert
program = tt

abbrev pub Node : Type 0
Node = Server MemoryStore PowEngine Log NetAddr

abbrev pub here_addr : NetAddr
here_addr = 1 ∷ []

abbrev pub there_addr : NetAddr
there_addr = 2 ∷ []

abbrev pub start_chain : Blockchain MemoryStore PowEngine
start_chain = record {
  store = (put net_prims new_memory_storage (test_block 0 [])).0;
  headers = test_header 0 ∷ [];
  consensus = some (record { target_difficulty = 4 });
  world_state = two_accounts;
  total_difficulty = some 0;
}

abbrev pub node_on : Blockchain MemoryStore PowEngine → Node
node_on bc = record {
  id = 5 ∷ [];
  seed_nodes = [];
  transports = here_addr ∷ [];
  private_key = some (record { secret = 1; point = (7, 0) });
  mem_pool = new_tx_pool 10000;
  chain = bc;
  peers = [];
  net = [];
}

abbrev pub chain_of :
    Option (Blockchain MemoryStore PowEngine × Result (Unit {0})) → Blockchain MemoryStore PowEngine
chain_of none = start_chain
chain_of (some p) = p.0

abbrev pub added_chain : Blockchain MemoryStore PowEngine
added_chain =
    chain_of (add_block test_env.storage test_env.engine net_prims 101 known_block start_chain)

pub added :
    add_block test_env.storage test_env.engine net_prims 101 known_block start_chain
    ≡ some (added_chain, ok tt)
unfolding program
added = refl

pub start_chain-IsChain : IsChain test_env.storage test_env.engine net_prims start_chain
unfolding program
start_chain-IsChain = record {
  started = omega arith;
  short = omega arith;
  heights = (refl, tt);
  linked = tt;
  stored = at;
}
  where
    at :
        (i : ℕ) (h : Header)
        → get_elem? start_chain.headers i ≡ some h
        → (b : Block) × (test_env.storage.get start_chain.store i ≡ ok b) × (b.header ≡ h)
    at zero h found = (with_hashes net_prims (test_block 0 []), refl, some_inj found)
    at (suc zero) h found = absurd (cc found)
    at (suc (suc i)) h found = absurd (cc found)

pub added_chain-IsChain : IsChain test_env.storage test_env.engine net_prims added_chain
added_chain-IsChain =
    (add_block-IsChain test_env.storage test_env.engine net_prims 101 known_block start_chain
      {bc' = added_chain} start_chain-IsChain (omega arith) added).0

abbrev pub ahead : Node
ahead = node_on added_chain

abbrev pub behind : Node
behind = node_on start_chain

abbrev pub blocks_of : Option (Result (List Block)) → List Block
blocks_of (some (ok bs)) = bs
blocks_of r = []

abbrev pub batch : List Block
batch = blocks_of (collect test_env 5 1 1 [] added_chain)

abbrev pub node_of : Option (Node × Result (Unit {0})) → Node
node_of none = behind
node_of (some p) = p.0

abbrev pub caught_up : Node
caught_up = node_of (process_blocks test_env 101 (map sent_block batch) behind)
