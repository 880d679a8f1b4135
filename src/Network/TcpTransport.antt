-- ===== src/Network/TcpTransport.antt =====
-- network/tcp_transport.go: the table of connections and what is read from them. The sockets are a
-- parameter over the state `W` of the network below. A channel is the list of what waits in it; that a
-- send to a full one waits is left out. Starting the listener is a call of the library.
pub mod Relay
use blockz.Prelude.{Bool, true, false, List, [], ◌∷◌, ◌++◌, none, some, map, bytes_eq}
use blockz.Result.{Result, ok, err, panic, attempt, peer_not_found}
use blockz.Map.{Map, lookup, insert, delete}
use blockz.Types.{Bytes}
use blockz.Network.Message.{NetAddr, Rpc, Message, Wire}
use blockz.Network.Server.{Transports}

-- package net, and the methods of `net.Conn`
pub record Sockets (W Conn : Type 0) : Type 0 where
  pub dial : W → NetAddr → W × Result Conn
  pub remote_addr : Conn → NetAddr
  pub write : W → Conn → Bytes → W × Result (Unit {0})
  pub close : W → Conn → W

pub record TcpPeer (Conn : Type 0) : Type 0 where
  pub conn : Conn
  pub outbound : Bool

pub record TcpTransport (Conn : Type 0) : Type 0 where
  pub addr : NetAddr
  pub consume_ch : List Rpc
  pub peers : Map NetAddr (TcpPeer Conn)

-- `NewTCPTransport`
unfoldable pub new_tcp_transport : {Conn : Type 0} → NetAddr → TcpTransport Conn
new_tcp_transport addr = record { addr = addr; consume_ch = []; peers = [] }

module _ {W Conn : Type 0} (net : Sockets W Conn) where
  -- `t.peers[NetAddr(conn.RemoteAddr().String())] = peer`
  unfoldable pub add_tcp_peer : Bool → Conn → TcpTransport Conn → TcpTransport Conn
  add_tcp_peer outbound conn t = record t {
    peers = insert (net.remote_addr conn) (record { conn = conn; outbound = outbound }) t.peers;
  }

  -- `Connect`; its read loop goes on beside it.
  unfoldable pub connect :
      NetAddr → TcpTransport Conn × W → (TcpTransport Conn × W) × Result (Unit {0})
  connect a (t, w) =
      let (w', r) = net.dial w a in
      attempt (t, w') r λ conn. ((add_tcp_peer true conn t, w'), ok tt)

  unfoldable pub send_message :
      TcpTransport Conn × W → NetAddr → Bytes → (TcpTransport Conn × W) × Result (Unit {0})
  send_message (t, w) to payload = elim (lookup to t.peers) [
    | none ↦ ((t, w), err peer_not_found)
    | some peer ↦ let (w', r) = net.write w peer.conn payload in ((t, w'), r)
  ]

  -- The loop of `Broadcast`: an error of a connection is printed.
  unfoldable pub write_all : List (TcpPeer Conn) → Bytes → W → W
  write_all [] payload w = w
  write_all (peer ∷ peers) payload w = write_all peers payload (net.write w peer.conn payload).0

  unfoldable pub broadcast :
      TcpTransport Conn × W → Bytes → (TcpTransport Conn × W) × Result (Unit {0})
  broadcast (t, w) payload = ((t, write_all (map (λ e. e.1) t.peers) payload w), ok tt)

  -- A round of `acceptLoop`, with the outcome of `Accept`
  unfoldable pub accept : Result Conn → TcpTransport Conn → TcpTransport Conn
  accept (ok conn) t = add_tcp_peer false conn t
  accept (err e) t = t
  accept (panic p) t = t

  -- The deferred function of `readLoop`
  unfoldable pub leave : TcpPeer Conn → TcpTransport Conn × W → TcpTransport Conn × W
  leave peer (t, w) =
      (record t { peers = delete (net.remote_addr peer.conn) t.peers }, net.close w peer.conn)

  module _ (wire : Wire) where
    -- The message that the channel gets: it is encoded again, on its own.
    abbrev pub relayed : TcpPeer Conn → Message → Rpc
    relayed peer m = record { from = net.remote_addr peer.conn; payload = wire.message_bytes m }

    -- `readLoop`, with the messages that the decoder gives before it fails
    unfoldable pub read_loop :
        TcpPeer Conn → List Message → TcpTransport Conn × W → TcpTransport Conn × W
    read_loop peer [] (t, w) = leave peer (t, w)
    read_loop peer (m ∷ ms) (t, w) =
        read_loop peer ms (record t { consume_ch = t.consume_ch ++ relayed peer m ∷ [] }, w)

  -- The methods of the interface, for the one transport of a node
  abbrev pub tcp_transports : NetAddr → Transports (TcpTransport Conn × W) (Unit {0})
  tcp_transports addr = record {
    send_message = λ tr n to payload. send_message n to payload;
    broadcast = λ tr n payload. broadcast n payload;
    connect = λ tr n to. connect to n;
    addr = λ tr. addr;
  }
