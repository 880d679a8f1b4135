-- ===== src/Network/TcpTransport/Relay.antt =====
-- network/tcp_transport.go: what connections bring, and what is left of them.
use blockz.Prelude.{
  ◌≡◌, refl, sym, ap, ◌∙◌, true, List, [], ◌∷◌, ◌++◌, none, map, if◌then◌else◌, ◌=?◌, bytes_eq,
  beq_refl,
}
use mathlib.Core.List.{append-nil, append_assoc}
use blockz.Result.{Result, ok, err, attempt, peer_not_found}
use blockz.Map.{lookup}
use blockz.Map.Laws.{lookup-insert_self, lookup-delete}
use blockz.Types.{Bytes}
use blockz.Network.Message.{NetAddr, Rpc, Message, Wire}
use blockz.Network.TcpTransport.{
  Sockets, TcpPeer, TcpTransport, add_tcp_peer, connect, send_message, leave, relayed, read_loop,
}

module _ {W Conn : Type 0} (net : Sockets W Conn) where
  connect_lem :
      (a : NetAddr) (t : TcpTransport Conn) (w : W) {w' : W} {conn : Conn}
      → net.dial w a ≡ (w', ok conn)
      → connect net a (t, w) ≡ ((add_tcp_peer net true conn t, w'), ok tt)
  unfolding connect
  connect_lem a t w dialled =
      ap (λ d. attempt (t, d.0) d.1 λ conn. ((add_tcp_peer net true conn t, d.0), ok tt)) dialled

  -- A message to the address of a connection that was just made is written to that connection.
  send_message_new_peer :
      (a : NetAddr) (payload : Bytes) (t : TcpTransport Conn) (w : W) {w' : W} {conn : Conn}
      → net.dial w a ≡ (w', ok conn)
      → send_message net (connect net a (t, w)).0 (net.remote_addr conn) payload
        ≡ (let (w'', r) = net.write w' conn payload in ((add_tcp_peer net true conn t, w''), r))
  unfolding send_message add_tcp_peer
  send_message_new_peer a payload t w {w'} {conn} dialled =
      ap (λ q. send_message net q.0 (net.remote_addr conn) payload) (connect_lem a t w dialled)
      ∙ sent
    where
      sent :
          send_message net (add_tcp_peer net true conn t, w') (net.remote_addr conn) payload
          ≡ (let (w'', r) = net.write w' conn payload in ((add_tcp_peer net true conn t, w''), r))
      sent =
          let known =
            lookup-insert_self (net.remote_addr conn) (record { conn = conn; outbound = true })
              t.peers in
          rw (send_message, known)

  -- A node connects to a peer, while the read loop of an old connection under the same address still
  -- runs. A message to that address is then written to the new connection, and its outcome is that of the
  -- writing; but once the old connection ends, a message to that address is refused.
  pub send_message-leave :
      (a : NetAddr) (payload : Bytes) (old : TcpPeer Conn) (t : TcpTransport Conn) (w : W) {w' : W}
      {conn : Conn}
      → net.dial w a ≡ (w', ok conn)
      → net.remote_addr old.conn ≡ net.remote_addr conn
      → (send_message net (connect net a (t, w)).0 (net.remote_addr conn) payload
          ≡ (let (w'', r) = net.write w' conn payload in ((add_tcp_peer net true conn t, w''), r)))
        × ((send_message net
              (leave net old (connect net a (t, w)).0)
              (net.remote_addr conn)
              payload).1
            ≡ err peer_not_found)
  unfolding send_message leave
  send_message-leave a payload old t w {w'} {conn} dialled same = (
    send_message_new_peer a payload t w {w' = w'} {conn = conn} dialled,
    ap (λ q. (send_message net (leave net old q.0) (net.remote_addr conn) payload).1)
          (connect_lem a t w dialled)
        ∙ refused,
  )
    where
      refused :
          (send_message net
            (leave net old (add_tcp_peer net true conn t, w'))
            (net.remote_addr conn)
            payload).1
          ≡ err peer_not_found
      refused =
          let gone =
            lookup-delete (net.remote_addr old.conn) (net.remote_addr conn)
              (add_tcp_peer net true conn t).peers in
          let same_addr =
            ap (λ b. b =? net.remote_addr conn) same ∙ beq_refl (net.remote_addr conn) in
          rw (send_message, gone, same_addr)

  module _ (wire : Wire) where
    -- A connection brings the messages that are read from it to the channel, in their order: each under
    -- the address of the connection, and with a payload that decodes on its own to the message that was
    -- read. When the reading fails the connection is no longer in the table, and the other ones still
    -- are.
    pub read_loop_lem :
        (peer : TcpPeer Conn) (ms : List Message) (t : TcpTransport Conn) (w : W) (a : NetAddr)
        → let t' = (read_loop net wire peer ms (t, w)).0 in
          (rpcs : List Rpc) × (t'.consume_ch ≡ t.consume_ch ++ rpcs)
          × (map {B = NetAddr × Result Message} (λ r. (r.from, wire.decode_message r.payload)) rpcs
              ≡ map (λ m. (net.remote_addr peer.conn, ok m)) ms)
          × (lookup a t'.peers
              ≡ (if net.remote_addr peer.conn =? a then none else lookup a t.peers))
    unfolding read_loop leave
    read_loop_lem peer [] t w a = (
      [],
      sym (append-nil t.consume_ch),
      refl,
      lookup-delete (net.remote_addr peer.conn) a t.peers,
    )
    read_loop_lem peer (m ∷ ms) t w a =
        let (rpcs, queued, decoded, left) =
          read_loop_lem peer ms
            (record t { consume_ch = t.consume_ch ++ relayed net wire peer m ∷ [] }) w a in
        (
          relayed net wire peer m ∷ rpcs,
          queued ∙ append_assoc t.consume_ch (relayed net wire peer m ∷ []) rpcs,
          (λ i. (net.remote_addr peer.conn, wire.decode_message_bytes m i) ∷ decoded i),
          left,
        )
