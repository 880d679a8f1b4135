-- ===== src/Network/Server/Peers.antt =====
-- network/server.go: how nodes find each other. A peer's messages make it known; the list of peers is
-- handed on, and the seed nodes are asked for theirs.
pub mod Discovery
use blockz.Prelude.{Bool, List, [], ◌∷◌, if◌then◌else◌, ◌=?◌, bytes_eq}
use blockz.Result.{Result, ok, err, panic, and_then, attempt, index_out_of_range}
use blockz.Map.{keys, insert, has}
use blockz.Network.Message.{NetAddr, Payload, get_status, get_peers, share_peers, payload_message}
use blockz.Network.NetAddr.{resolve}
use blockz.Network.Server.{Env, Server, send_payload}

module _ {T C N Tr : Type 0} (env : Env T C N Tr) where
  unfoldable pub is_peer_connected : NetAddr → Server T C N Tr → Bool
  is_peer_connected addr s = has addr s.peers

  unfoldable pub add_peer : NetAddr → Tr → Server T C N Tr → Server T C N Tr
  add_peer addr tr s = if has addr s.peers then s else record s { peers = insert addr tr s.peers }

  -- `s.Transports[0]`, and what is done over it
  abbrev pub on_first :
      (Tr → N → N × Result (Unit {0})) → Server T C N Tr → Server T C N Tr × Result (Unit {0})
  on_first f s = elim s.transports [
    | [] ↦ (s, panic index_out_of_range)
    | tr ∷ trs ↦ let (n', r) = f tr s.net in (record s { net = n' }, r)
  ]

  -- A payload is encoded, then sent over the first transport.
  unfoldable pub send_over_first :
      NetAddr → Payload → Server T C N Tr → Server T C N Tr × Result (Unit {0})
  send_over_first to p s =
      attempt s (payload_message env.wire env.codec p)
        λ m. on_first (λ tr n. env.transports.send_message tr n to (env.wire.message_bytes m)) s

  unfoldable pub send_get_status : NetAddr → Server T C N Tr → Server T C N Tr × Result (Unit {0})
  send_get_status to s = send_payload env to get_status s

  unfoldable pub send_get_peers : NetAddr → Server T C N Tr → Server T C N Tr × Result (Unit {0})
  send_get_peers to s = send_over_first to get_peers s

  -- The loop of `handleGetPeers`: the requester is not told its own address.
  unfoldable pub other_peers : NetAddr → List NetAddr → List NetAddr
  other_peers from [] = []
  other_peers from (a ∷ addrs) =
      let rest = other_peers from addrs in if a =? from then rest else a ∷ rest

  unfoldable pub handle_get_peers : NetAddr → Server T C N Tr → Server T C N Tr × Result (Unit {0})
  handle_get_peers from s = send_over_first from (share_peers (other_peers from (keys s.peers))) s

  -- A new address, other than that of the first transport, is connected to; the outcome is dropped.
  unfoldable pub discover : NetAddr → Server T C N Tr → Server T C N Tr × Result (Unit {0})
  discover a s =
      if is_peer_connected a s
      then (s, ok tt)
      else on_first
          (λ tr n.
            if a =? env.transports.addr tr
            then (n, ok tt)
            else ((env.transports.connect tr n a).0, ok tt))
          s

  -- `handleSharePeers`
  unfoldable pub handle_share_peers :
      List NetAddr → Server T C N Tr → Server T C N Tr × Result (Unit {0})
  handle_share_peers [] s = (s, ok tt)
  handle_share_peers (a ∷ addrs) s = and_then (discover a s) λ s'. handle_share_peers addrs s'

  -- An error that the caller logs or drops
  abbrev dropping : Server T C N Tr × Result (Unit {0}) → Server T C N Tr × Result (Unit {0})
  dropping (s, ok u) = (s, ok tt)
  dropping (s, err e) = (s, ok tt)
  dropping (s, panic p) = (s, panic p)

  unfoldable pub connect_seed : NetAddr → Server T C N Tr → Server T C N Tr × Result (Unit {0})
  connect_seed a s =
      if is_peer_connected a s
      then (s, ok tt)
      else on_first (λ tr n. env.transports.connect tr n a) s

  -- The body of the loop of `bootstrap`: a seed that cannot be connected to is left alone.
  unfoldable pub bootstrap_seed : NetAddr → Server T C N Tr → Server T C N Tr × Result (Unit {0})
  bootstrap_seed a s = dropping (
      and_then (connect_seed a s) λ s'.
        and_then (dropping (send_get_status (resolve a) s')) λ s''. send_get_peers (resolve a) s'')

  unfoldable pub bootstrap_all :
      List NetAddr → Server T C N Tr → Server T C N Tr × Result (Unit {0})
  bootstrap_all [] s = (s, ok tt)
  bootstrap_all (a ∷ seeds) s = and_then (bootstrap_seed a s) λ s'. bootstrap_all seeds s'

  -- `bootstrap`
  unfoldable pub bootstrap : Server T C N Tr → Server T C N Tr × Result (Unit {0})
  bootstrap s = bootstrap_all s.seed_nodes s
