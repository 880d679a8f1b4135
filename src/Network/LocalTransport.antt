-- ===== src/Network/LocalTransport.antt =====
-- network/local_transport.go: transports in memory, by their addresses, which stand for the pointers.
-- A channel is the list of what waits in it, the oldest first; that a send to a full one waits is
-- left out.
use blockz.Prelude.{
  ◌≡◌, ◌∙◌, List, [], ◌∷◌, ◌++◌, Option, none, some, map, if◌then◌else◌, ◌=?◌, bytes_eq, beq_refl,
  Bool-cases, Option-cases, inl, inr, bytes_beq_iff,
}
use blockz.Result.{Result, ok, err, panic, and_then, nil_dereference, peer_not_found}
use blockz.Map.{Map, lookup, insert, update}
use blockz.Map.Laws.{lookup-update, lookup-insert_self}
use blockz.Types.{Bytes}
use blockz.Network.Message.{NetAddr, Rpc}

pub record LocalTransport : Type 0 where
  pub addr : NetAddr
  pub consume_ch : List Rpc
  pub peers : Map NetAddr NetAddr

-- The transports of a program
abbrev pub Hub : Type 0
Hub = Map NetAddr LocalTransport

-- `NewLocalTransport`
unfoldable pub new_local_transport : NetAddr → LocalTransport
new_local_transport addr = record { addr = addr; consume_ch = []; peers = [] }

-- `Connect` of the transport `t` to the transport `to`
unfoldable pub connect : NetAddr → NetAddr → Hub → Hub
connect t to hub = update t (λ l. record l { peers = insert to to l.peers }) hub

-- `peer.consumeCh <- RPC{ … }`
unfoldable pub deliver : Rpc → NetAddr → Hub → Hub
deliver rpc peer hub = update peer (λ l. record l { consume_ch = l.consume_ch ++ rpc ∷ [] }) hub

-- `SendMessage` of the transport `t`
unfoldable pub send_message : NetAddr → Hub → NetAddr → Bytes → Hub × Result (Unit {0})
send_message t hub to payload = elim (lookup t hub) [
  | none ↦ (hub, panic nil_dereference)
  | some l ↦ elim (lookup to l.peers) [
    | none ↦ (hub, err peer_not_found)
    | some peer ↦ (deliver (record { from = l.addr; payload = payload }) peer hub, ok tt)
  ]
]

-- The loop of `Broadcast`
unfoldable pub broadcast_to : List NetAddr → NetAddr → Bytes → Hub → Hub × Result (Unit {0})
broadcast_to [] t payload hub = (hub, ok tt)
broadcast_to (peer ∷ peers) t payload hub =
    and_then (send_message t hub peer payload) λ hub'. broadcast_to peers t payload hub'

unfoldable pub broadcast : NetAddr → Hub → Bytes → Hub × Result (Unit {0})
broadcast t hub payload = elim (lookup t hub) [
  | none ↦ (hub, panic nil_dereference)
  | some l ↦ broadcast_to (map (λ e. e.1) l.peers) t payload hub
]

-- The transport with one more message in its channel
abbrev pub with_message : Rpc → Option LocalTransport → Option LocalTransport
with_message rpc none = none
with_message rpc (some l) = some (record l { consume_ch = l.consume_ch ++ rpc ∷ [] })

lookup-deliver :
    (rpc : Rpc) (to j : NetAddr) (hub : Hub)
    → lookup j (deliver rpc to hub)
      ≡ (if to =? j then with_message rpc (lookup j hub) else lookup j hub)
unfolding deliver
lookup-deliver rpc to j hub =
    let put = λ (l : LocalTransport). record l { consume_ch = l.consume_ch ++ rpc ∷ [] } in
    let read = lookup-update to j put hub in
    elim (Bool-cases (to =? j)) [
      | inr other ↦ rw (other) (rw (other) at read)
      | inl same ↦
          let one : to ≡ j = (bytes_beq_iff to j).0 same in
          rw (same) (
            rw (same) at read ∙ elim (Option-cases (lookup j hub)) [
              | inl absent ↦ rw (one, absent)
              | inr (l, there) ↦ rw (one, there)
            ])
    ]

-- After `Connect`, a message that is sent to the peer is the last one in the peer's channel, under the
-- sender's address, and no other transport has changed.
pub send_message-connect :
    (t to j : NetAddr) (payload : Bytes) (hub : Hub) {l : LocalTransport}
    → lookup t hub ≡ some l
    → let rpc : Rpc = record { from = l.addr; payload = payload } in
      ((send_message t (connect t to hub) to payload).1 ≡ ok tt)
      × (lookup j (send_message t (connect t to hub) to payload).0 ≡ (
          if to =? j
          then with_message rpc (lookup j (connect t to hub))
          else lookup j (connect t to hub)))
unfolding send_message connect deliver
send_message-connect t to j payload hub {l} there =
    let grown = λ (g : LocalTransport). record g { peers = insert to to g.peers } in
    let rpc : Rpc = record { from = l.addr; payload = payload } in
    let mine : lookup t (connect t to hub) ≡ some (grown l) =
      lookup-update t t grown hub ∙ rw (beq_refl t, there) in
    let known = lookup-insert_self to to l.peers in
    (
      rw (send_message, mine, known),
      rw (send_message, mine, known) (lookup-deliver rpc to j (connect t to hub)),
    )
