-- ===== src/Tests/Programs.antt =====
-- The start-up of the program, and the loop of a node.
use blockz.Prelude.{ℕ, ◌≡◌, refl, ◌/◌, List, [], ◌∷◌, none, some, if◌then◌else◌, ◌=?◌, bytes_eq}
use blockz.Result.{Result, ok, err, unexpected_proposer}
use blockz.Map.{Map, lookup, sum_by}
use blockz.Types.{Address}
use blockz.Text.{codes}
use blockz.Consensus.Pos.{PosEngine, prepare, verify_header}
use blockz.Network.Message.{NetAddr}
use blockz.Network.Server.Creation.{create_new_block}
use blockz.Network.Server.Peers.{bootstrap, bootstrap_all}
use blockz.Network.Server.Start.{Event, ticked, searched, start, handle}
use blockz.Program.{pos, create_genesis_allocs, create_consensus_engine, genesis_alloc_total}
use blockz.Program.Genesis.{among, dev_accounts, create_genesis_allocs_lem}
use blockz.Program.{must_create_server}
use blockz.Program.Servers.{must_create_server_lem}
use blockz.Core.WorldState.{get_balance}
use blockz.Core.Storage.Memory.{new_memory_storage}
use blockz.Prelude.{replicate, Option}
use blockz.Program.Engines.{create_consensus_engine_split}
use blockz.Tests.{test_prims, test_header, alice, bob}
use blockz.Tests.Wires.{test_env}
use blockz.Tests.Network.{Node, program, behind, here_addr, node_of}

abbrev two_events : List (Event NetAddr)
two_events = searched ∷ ticked 101 4 ∷ []

abbrev after_both : Node
after_both = node_of (start test_env two_events behind)

-- A validator that is none of the development accounts
create_genesis_allocs_lem_example :
    (allocs : Map Address ℕ) × (create_genesis_allocs alice ≡ ok allocs)
    × (sum_by (λ n. n) allocs
        ≡ (if among alice dev_accounts then genesis_alloc_total / 2 else genesis_alloc_total))
    × (lookup alice allocs ≡ (
        if among alice dev_accounts
        then some 100000000
        else if alice =? alice
        then some 500000000
        else none))
create_genesis_allocs_lem_example = create_genesis_allocs_lem alice alice

-- "PoS", for two validators
create_consensus_engine_split_example :
    (e e' : PosEngine) × (create_consensus_engine (codes "PoS") 8 alice ≡ pos e)
    × (create_consensus_engine (codes "PoS") 8 bob ≡ pos e')
    × (prepare e (test_header 3) ≡ ok (record (test_header 3) { coinbase = alice }))
    × ((verify_header test_prims e (record (test_header 3) { coinbase = alice })).1 ≡ ok tt)
    × (verify_header test_prims e' (record (test_header 3) { coinbase = alice })
        ≡ (e', err unexpected_proposer))
create_consensus_engine_split_example =
    create_consensus_engine_split test_prims (codes "PoS") 8 8 alice bob (test_header 3) refl
      (λ h. cc h)

both_return : start test_env two_events behind ≡ some (after_both, ok tt)
unfolding program start handle bootstrap bootstrap_all create_new_block
both_return = refl

abbrev server_of : Option (Result Node) → Node
server_of (some (ok s)) = s
server_of r = behind

abbrev started : Node
started = server_of (
    must_create_server test_env 5 (codes "peer-1") here_addr none (record { target_difficulty = 4 })
      new_memory_storage [])

-- On a new store
must_create_server_lem_example :
    (get_balance started.chain.world_state (replicate 20 243) ≡ 0)
    × (started.chain.consensus ≡ some (record { target_difficulty = 4 }))
    × (started.private_key ≡ none)
    × (started.seed_nodes ≡ [])
    × (started.transports ≡ here_addr ∷ [])
unfolding program must_create_server
must_create_server_lem_example =
    must_create_server_lem test_env 5 (codes "peer-1") here_addr none
      (record { target_difficulty = 4 }) new_memory_storage [] (replicate 20 243) {s = started} refl
