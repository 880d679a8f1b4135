-- ===== src/Network/Server.antt =====
-- network/server.go: the node's state, how it sends and broadcasts, and how it takes transactions and
-- blocks. The transports are parameters over the state `N` of the network. `go f()` runs at once, and
-- its result is dropped; logging is left out. The RPC server for clients is not part of the state.
pub mod Sync
pub mod Creation
pub mod Peers
pub mod Dispatch
pub mod Invariant
pub mod Reachable
pub mod Gossip
pub mod Start
pub mod Inclusion
pub mod Mined
use blockz.Prelude.{ℕ, ◌+◌, ◌%◌, ◌^◌, List, [], ◌∷◌, Option, none, some, if◌then◌else◌, bytes_eq}
use blockz.Result.{
  Result, Error, ok, err, panic, and_then, attempt, too_high, already_contains, peer_not_found,
}
use blockz.Map.{Map, lookup}
use blockz.Types.{Bytes}
use blockz.Core.Data.{PrivateKey, Transaction, Block, Primitives}
use blockz.Core.Codec.{Codec}
use blockz.Core.Storage.{Storage}
use blockz.Core.Consensus.{ConsensusEngine}
use blockz.Core.Transaction.{tx_hash, tx_verify, set_first_seen}
use blockz.Core.Blockchain.{Blockchain, height, add_block}
use blockz.Network.TxPool
use blockz.Network.TxPool.{TxPool}
use blockz.Network.Message.{NetAddr, Message, Payload, tx, block, get_blocks, Wire, payload_message}
use blockz.Network.NetAddr.{localhost, loopback, contains_part, replace_first}

-- The interface `Transport`; `connect` gets the address of the new `TCPTransport` that it is given.
pub record Transports (N Tr : Type 0) : Type 0 where
  pub send_message : Tr → N → NetAddr → Bytes → N × Result (Unit {0})
  pub broadcast : Tr → N → Bytes → N × Result (Unit {0})
  pub connect : Tr → N → NetAddr → N × Result (Unit {0})
  pub addr : Tr → NetAddr

-- What the node is built from
pub record Env (T C N Tr : Type 0) : Type 0 where
  pub prims : Primitives
  pub codec : Codec prims
  pub wire : Wire
  pub storage : Storage T
  pub engine : ConsensusEngine C
  pub transports : Transports N Tr

-- `s.consensus` and the engine of the chain are the same object, which the chain has here. The node is
-- a validator when it has a key.
pub record Server (T C N Tr : Type 0) : Type 0 where
  pub id : Bytes
  pub seed_nodes : List NetAddr
  pub transports : List Tr
  pub private_key : Option PrivateKey
  pub mem_pool : TxPool
  pub chain : Blockchain T C
  pub peers : Map NetAddr Tr
  pub net : N

module _ {T C N Tr : Type 0} (env : Env T C N Tr) where
  abbrev pub Node : Type 0
  Node = Server T C N Tr

  abbrev on_net : Node → N × Result (Unit {0}) → Node × Result (Unit {0})
  on_net s p = (record s { net = p.0 }, p.1)

  -- `broadcast`: the loop over the transports
  unfoldable pub broadcast : List Tr → Bytes → N → N × Result (Unit {0})
  broadcast [] payload n = (n, ok tt)
  broadcast (tr ∷ trs) payload n =
      and_then (env.transports.broadcast tr n payload) λ n'. broadcast trs payload n'

  broadcast_payload : Payload → Node → N × Result (Unit {0})
  broadcast_payload p s =
      attempt s.net (payload_message env.wire env.codec p)
        λ m. broadcast s.transports (env.wire.message_bytes m) s.net

  unfoldable pub broadcast_block : Block → Node → Node × Result (Unit {0})
  unfolding broadcast_payload
  broadcast_block b s = on_net s (broadcast_payload (block b) s)

  unfoldable pub broadcast_tx : Transaction → Node → Node × Result (Unit {0})
  unfolding broadcast_payload
  broadcast_tx t s = on_net s (broadcast_payload (tx t) s)

  -- The peer that `send` finds, under the address or under its other name
  unfoldable pub find_peer : NetAddr → Node → Option Tr
  find_peer addr s = elim (lookup addr s.peers) [
    | some tr ↦ some tr
    | none ↦
        if contains_part localhost addr
        then lookup (replace_first localhost loopback addr) s.peers
        else none
  ]

  unfoldable pub send : NetAddr → Message → Node → Node × Result (Unit {0})
  send addr m s = elim (find_peer addr s) [
    | none ↦ (s, err peer_not_found)
    | some tr ↦ on_net s (env.transports.send_message tr s.net addr (env.wire.message_bytes m))
  ]

  -- A payload is encoded, then sent.
  unfoldable pub send_payload : NetAddr → Payload → Node → Node × Result (Unit {0})
  send_payload to p s = attempt s (payload_message env.wire env.codec p) λ m. send to m s

  -- `ProcessTransaction`, at a time `now`
  unfoldable pub process_transaction : ℕ → Transaction → Node → Node × Result (Unit {0})
  process_transaction now t s =
      let (cached, h) = tx_hash env.prims t in
      if TxPool.contains h s.mem_pool
      then (s, ok tt)
      else attempt s (tx_verify env.prims cached) λ _.
        let seen = set_first_seen now cached in
        let sent = (broadcast_tx seen s).0 in
        elim (TxPool.add env.prims seen s.mem_pool) [
          | ok pool ↦ (record sent { mem_pool = pool }, ok tt)
          | err e ↦ (sent, err e)
          | panic p ↦ (sent, panic p)
        ]

  unfoldable pub request_blocks_sync : NetAddr → Node → Node × Result (Unit {0})
  request_blocks_sync from s =
      send_payload from (get_blocks (record { from = (height s.chain + 1) % 2 ^ 32; to = 0 })) s

  -- The error of `AddBlock`, in `processBlock`
  unfoldable pub block_refused : NetAddr → Error → Node → Node × Result (Unit {0})
  block_refused from too_high s = request_blocks_sync from s
  block_refused from already_contains s = (s, ok tt)
  block_refused from e s = (s, err e)

  block_added : NetAddr → Block → Result (Unit {0}) → Node → Node × Result (Unit {0})
  block_added from b (ok u) s = ((broadcast_block b s).0, ok tt)
  block_added from b (err e) s = block_refused from e s
  block_added from b (panic p) s = (s, panic p)

  -- `processBlock`
  unfoldable pub process_block : ℕ → NetAddr → Block → Node → Option (Node × Result (Unit {0}))
  unfolding block_added
  process_block fuel from b s = elim (add_block env.storage env.engine env.prims fuel b s.chain) [
    | none ↦ none
    | some p ↦ some (block_added from b p.1 (record s { chain = p.0 }))
  ]
