-- ===== src/Network/Server/Dispatch.antt =====
-- network/server.go: `ProcessMessage` and the body of the loop of `Start`.
pub mod Laws
use blockz.Prelude.{ℕ, Option, some}
use blockz.Result.{Result, ok, err, panic, nil_dereference}
use blockz.Network.Message.{
  NetAddr, Payload, Rpc, tx, block, get_blocks, blocks, status, get_status, get_peers, share_peers,
  default_rpc_decode,
}
use blockz.Network.Server.{Env, Server, process_transaction, process_block}
use blockz.Network.Server.Sync.{
  process_status_message, process_get_status_message, process_get_blocks, process_blocks,
}
use blockz.Network.Server.Peers.{add_peer, handle_get_peers, handle_share_peers}

module _ {T C N Tr : Type 0} (env : Env T C N Tr) where
  -- The `switch` of `ProcessMessage`; `fuel` bounds the machine, `rounds` the loop over requested
  -- blocks.
  unfoldable pub process_payload :
      ℕ → ℕ → ℕ → NetAddr → Payload → Server T C N Tr → Option (Server T C N Tr × Result (Unit {0}))
  process_payload fuel rounds now from (tx t) s = some (process_transaction env now t s)
  process_payload fuel rounds now from (block b) s = process_block env fuel from b s
  process_payload fuel rounds now from (get_blocks m) s = process_get_blocks env rounds from m s
  process_payload fuel rounds now from (blocks bs) s = process_blocks env fuel bs s
  process_payload fuel rounds now from (status m) s = some (process_status_message env from m s)
  process_payload fuel rounds now from get_status s = some (process_get_status_message env from s)
  process_payload fuel rounds now from get_peers s = some (handle_get_peers env from s)
  process_payload fuel rounds now from (share_peers addrs) s = some (handle_share_peers env addrs s)

  -- The body of the loop of `Start`: the error of the decoder is logged, and its nil message is handed
  -- to `ProcessMessage`, which reads a field of it.
  unfoldable pub handle_rpc :
      ℕ → ℕ → ℕ → Rpc → Server T C N Tr → Option (Server T C N Tr × Result (Unit {0}))
  handle_rpc fuel rounds now rpc s = elim (default_rpc_decode env.wire env.codec rpc) [
    | err e ↦ some (s, panic nil_dereference)
    | panic p ↦ some (s, panic p)
    | ok m ↦ process_payload fuel rounds now m.from m.payload s
  ]

  -- A message that arrives over a transport: the sender becomes a peer first.
  unfoldable pub receive :
      ℕ → ℕ → ℕ → Tr → Rpc → Server T C N Tr → Option (Server T C N Tr × Result (Unit {0}))
  receive fuel rounds now tr rpc s = handle_rpc fuel rounds now rpc (add_peer env rpc.from tr s)
