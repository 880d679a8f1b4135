-- ===== src/Tests/Pools.antt =====
-- The pool, and the blocks that are built from it.
use blockz.Prelude.{false, ◌≡◌, refl, [], ◌∷◌, Option, none, some, length, arith, ◌≤◌}
use blockz.Result.{Result, ok}
use blockz.Core.Data.{Transaction, Block}
use blockz.Core.Codec.{sent_tx}
use blockz.Core.Block.{verify_transactions}
use blockz.Core.Storage.Memory.{new_memory_storage}
use blockz.Core.Blockchain.{validate_block}
use blockz.Network.SortedMap.{count}
use blockz.Network.TxPool
use blockz.Network.TxPool.{TxPool, new_tx_pool, pending, prune, add_all}
use blockz.Network.TxPool.Race.{admit, overlapping_add}
use blockz.Types.{zero_hash}
use blockz.Network.TxPool.Fifo.{IsPool, new_tx_pool-IsPool, add-refines, view, fifo_add}
use blockz.Network.Message.{status, default_rpc_decode}
use blockz.Network.Message.Decoding.{default_rpc_decode-payload_message}
use blockz.Network.Server.{process_transaction}
use blockz.Network.Server.Creation.{build_block, new_server}
use blockz.Network.Server.Creation.Laws.{pow_engine-Seals}
use blockz.Network.Server.Creation.Valid.{build_block-valid}
use blockz.Network.Server.Reachable.{here, next, submits, Reach-IsPool}
use blockz.Network.SortedMap.Index.{has_hash}
use blockz.Network.Server.Invariant.{Ready}
use blockz.Network.Server.Mined.{create_new_block-includes}
use blockz.Core.Blockchain.Chain.{IsChain}
use blockz.Prelude.{◌++◌}
use blockz.Network.Server.Creation.{create_new_block}
use blockz.Tests.Nodes.{net_prims, known_tx, known_block}
use blockz.Tests.Wires.{test_wire, test_env}
use blockz.Tests.Nodes.{test_codec}
use blockz.Tests.Network.{program, here_addr, there_addr, start_chain-IsChain, behind, Node}

abbrev block_of : Result Block → Block
block_of (ok b) = b
block_of r = known_block

-- A node with one transaction that waits
abbrev busy : Node
busy = (process_transaction test_env 3 known_tx behind).0

abbrev built_block : Block
built_block = block_of (build_block test_env 7 busy)

-- The block with that transaction.
build_block-valid_example :
    ((validate_block test_env.storage test_env.engine net_prims built_block busy.chain).1 ≡ ok tt)
    × (built_block.transactions ≡ pending busy.mem_pool)
    × (built_block.header.height ≡ length busy.chain.headers)
unfolding program
build_block-valid_example =
    build_block-valid test_env 7 busy {c = record { target_difficulty = 4 }}
      {k = record { secret = 1; point = (7, 0) }} {b = built_block}
      (pow_engine-Seals net_prims (λ n. false) (record { target_difficulty = 4 }))
      (λ k message sig signed. refl) start_chain-IsChain refl refl refl refl

behind-IsPool : IsPool net_prims behind.mem_pool
behind-IsPool = new_tx_pool-IsPool net_prims 10000 (omega arith)

-- A status message.
default_rpc_decode-payload_message_example :
    default_rpc_decode test_wire test_codec
      (record { from = there_addr; payload = 4 ∷ 1 ∷ 6 ∷ 5 ∷ [] })
    ≡ ok (record {
      from = there_addr;
      payload = status (record { id = 5 ∷ []; version = 1; height = 6 });
    })
unfolding program
default_rpc_decode-payload_message_example =
    default_rpc_decode-payload_message test_wire test_codec there_addr
      (status (record { id = 5 ∷ []; version = 1; height = 6 }))
      {m = record { header = 4; content = 1 ∷ 6 ∷ 5 ∷ [] }} refl

add-refines_example :
    (p : TxPool) × (TxPool.add net_prims known_tx (new_tx_pool 1) ≡ ok p)
    × IsPool net_prims p
    × (p.max_length ≡ (new_tx_pool 1).max_length)
    × (view net_prims p
        ≡ fifo_add net_prims (new_tx_pool 1).max_length known_tx (view net_prims (new_tx_pool 1)))
add-refines_example =
    add-refines net_prims known_tx (new_tx_pool 1) (new_tx_pool-IsPool net_prims 1 (omega arith))

abbrev server_of : Option (Result Node) → Node
server_of (some (ok s)) = s
server_of r = behind

abbrev fresh_node : Node
fresh_node =
    server_of (new_server test_env 5 [] [] (here_addr ∷ []) none none new_memory_storage [])

abbrev fresh_busy : Node
fresh_busy = (process_transaction test_env 3 known_tx fresh_node).0

-- A new node that was given a transaction.
Reach-IsPool_example :
    IsPool net_prims fresh_busy.mem_pool
    × (count fresh_busy.mem_pool.all ≤ 10000)
    × (verify_transactions net_prims (pending fresh_busy.mem_pool) ≡ ok tt)
unfolding program
Reach-IsPool_example =
    Reach-IsPool test_env 5 [] [] (here_addr ∷ []) none none new_memory_storage [] {s = fresh_node}
      {s' = fresh_busy} refl (next here (submits 3 known_tx fresh_node fresh_busy (ok tt) refl))

behind-Ready : Ready test_env behind
unfolding program
behind-Ready = record { pool = behind-IsPool; verified = refl }

abbrev after_round : Option (Node × Result (Unit {0})) → Node
after_round none = busy
after_round (some p) = p.0

abbrev mined : Node
mined = after_round (create_new_block test_env 101 7 busy)

-- The node makes the block with that transaction.
create_new_block-includes_example :
    (b : Block) × ((tx' : Transaction) × (sent_tx tx' ≡ sent_tx known_tx)
      × (b.transactions ≡ pending behind.mem_pool ++ tx' ∷ []))
    × (mined.chain.headers ≡ behind.chain.headers ++ b.header ∷ [])
    × IsChain test_env.storage test_env.engine net_prims mined.chain
    × (test_env.storage.get mined.chain.store (length behind.chain.headers)
        ≡ ok (test_env.storage.kept b))
    × (pending mined.mem_pool ≡ [])
unfolding program create_new_block has_hash
create_new_block-includes_example =
    create_new_block-includes test_env 101 3 7 known_tx behind
      {c = record { target_difficulty = 4 }} {k = record { secret = 1; point = (7, 0) }}
      {s' = mined} (pow_engine-Seals net_prims (λ n. false) (record { target_difficulty = 4 }))
      (λ k message sig signed. refl) start_chain-IsChain (omega arith) refl refl behind-Ready refl
      refl refl refl

abbrev other_tx : Transaction
other_tx = record known_tx { payload = 9 ∷ []; hash = zero_hash }

-- A pool of length 1, and the first transaction once more after the two calls.
overlapping_add_example :
    let over = admit net_prims other_tx (admit net_prims known_tx (new_tx_pool 1)) in
    (TxPool.add net_prims known_tx (new_tx_pool 1) ≡ ok (admit net_prims known_tx (new_tx_pool 1)))
    × (TxPool.add net_prims other_tx (new_tx_pool 1)
        ≡ ok (admit net_prims other_tx (new_tx_pool 1)))
    × (count over.all ≡ 2)
    × (p' : TxPool) × (add_all net_prims (known_tx ∷ []) over ≡ ok p')
    × (count over.all ≤ count p'.all)
    × (prune net_prims p' ≡ ok p')
unfolding program
overlapping_add_example =
    overlapping_add net_prims known_tx other_tx (known_tx ∷ []) (new_tx_pool 1) refl refl refl refl
