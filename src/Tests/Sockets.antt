-- ===== src/Tests/Sockets.antt =====
-- Sockets over a log of what is written.
use blockz.Prelude.{
  ◌≡◌, refl, true, false, ◌=?◌, nat_eq, bytes_eq, List, [], ◌∷◌, ◌++◌, none, if◌then◌else◌, map,
}
use blockz.Result.{Result, ok, err, peer_not_found}
use blockz.Map.{lookup}
use blockz.Network.Message.{NetAddr, Message, Rpc}
use blockz.Network.TcpTransport.{
  Sockets, TcpPeer, TcpTransport, new_tcp_transport, add_tcp_peer, connect, send_message, leave,
  read_loop,
}
use blockz.Network.TcpTransport.Relay.{send_message-leave, read_loop_lem}
use blockz.Tests.Wires.{Log, test_wire}
use blockz.Tests.Network.{here_addr, there_addr}

-- A connection is the address of its other end; what is written is logged.
abbrev sockets : Sockets Log NetAddr
sockets = record {
  dial = λ w a. (w, ok a);
  remote_addr = λ conn. conn;
  write = λ w conn bytes. ((conn, bytes) ∷ w, ok tt);
  close = λ w conn. w;
}

abbrev old_peer : TcpPeer NetAddr
old_peer = record { conn = there_addr; outbound = false }

abbrev two_messages : List Message
two_messages = record { header = 6; content = [] } ∷ record { header = 7; content = 3 ∷ [] } ∷ []

abbrev busy_transport : TcpTransport NetAddr
busy_transport = add_tcp_peer sockets false there_addr (new_tcp_transport here_addr)

-- The node has two connections to the peer in turn; the end of the first one cuts it off.
send_message-leave_example :
    (send_message sockets (connect sockets there_addr (busy_transport, [])).0 there_addr (1 ∷ [])
      ≡ ((add_tcp_peer sockets true there_addr busy_transport, (there_addr, 1 ∷ []) ∷ []), ok tt))
    × ((send_message sockets
          (leave sockets old_peer (connect sockets there_addr (busy_transport, [])).0)
          there_addr
          (1 ∷ [])).1
        ≡ err peer_not_found)
send_message-leave_example =
    send_message-leave sockets there_addr (1 ∷ []) old_peer busy_transport [] {w' = []}
      {conn = there_addr} refl refl

read_loop_lem_example :
    let t' = (read_loop sockets test_wire old_peer two_messages (busy_transport, [])).0 in
    (rpcs : List Rpc) × (t'.consume_ch ≡ busy_transport.consume_ch ++ rpcs)
    × (map {B = NetAddr × Result Message} (λ r. (r.from, test_wire.decode_message r.payload)) rpcs
        ≡ map (λ m. (there_addr, ok m)) two_messages)
    × (lookup there_addr t'.peers
        ≡ (if there_addr =? there_addr then none else lookup there_addr busy_transport.peers))
read_loop_lem_example =
    read_loop_lem sockets test_wire old_peer two_messages busy_transport [] there_addr
