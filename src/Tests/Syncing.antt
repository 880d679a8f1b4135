-- ===== src/Tests/Syncing.antt =====
-- Blocks and messages between nodes.
use blockz.Prelude.{
  bytes_eq, ◌≡◌, refl, List, [], some, map, length, take, drop, arith, ◌+◌, ◌%◌, ◌^◌,
}
use blockz.Core.Data.{Block}
use blockz.Core.Blockchain.{height}
use blockz.Core.Blockchain.Chain.{IsChain}
use blockz.Network.Message.{get_blocks, blocks}
use blockz.Network.Server.{send_payload}
use blockz.Network.Server.Sync.{process_status_message, process_get_blocks}
use blockz.Network.Server.Sync.Collect.{process_get_blocks_lem}
use blockz.Network.Server.Sync.CatchUp.{catch_up}
use blockz.Tests.Nodes.{net_prims}
use blockz.Tests.Wires.{test_env}
use blockz.Tests.Network.{
  program, here_addr, there_addr, start_chain, added_chain, start_chain-IsChain,
  added_chain-IsChain, ahead, behind, batch, caught_up,
}

-- One node is a block ahead of the other.
catch_up_example :
    (process_status_message test_env here_addr
        (record { id = []; version = 1; height = height added_chain })
        behind
      ≡ send_payload test_env here_addr
          (get_blocks
            (record { from = (height start_chain + 1) % 2 ^ 32; to = height added_chain }))
          behind)
    × (process_get_blocks test_env 5 there_addr
          (record { from = (height start_chain + 1) % 2 ^ 32; to = height added_chain })
          ahead
        ≡ some (send_payload test_env there_addr (blocks batch) ahead))
    × IsChain test_env.storage test_env.engine net_prims caught_up.chain
    × (caught_up.chain.headers ≡ added_chain.headers)
unfolding program
catch_up_example =
    catch_up test_env 101 5 there_addr here_addr [] ahead behind caught_up batch added_chain-IsChain
      start_chain-IsChain (omega arith) refl (omega arith) refl refl

two_headers : length added_chain.headers ≡ 2
unfolding program
two_headers = refl

-- From the first block up to height 7, which is more than there are.
process_get_blocks_lem_example :
    (bs : List Block) × (process_get_blocks test_env 5 there_addr
        (record { from = 0; to = 7 })
        ahead
      ≡ some (send_payload test_env there_addr (blocks bs) ahead))
    × (map (λ b. b.header) bs ≡ take 8 (drop 0 added_chain.headers))
process_get_blocks_lem_example =
    process_get_blocks_lem test_env 5 there_addr (record { from = 0; to = 7 }) ahead
      added_chain-IsChain (omega (arith, two_headers))
