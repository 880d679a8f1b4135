-- ===== src/Network/Message/Decoding.antt =====
-- network/rpc.go and network/server.go: what is decoded is what a node has put into a message.
use blockz.Prelude.{ℕ, ◌≡◌, refl, map}
use blockz.Result.{Result, ok, ok_inj, bind_inv, ◌>>=◌}
use blockz.Types.{Bytes}
use blockz.Core.Data.{Primitives}
use blockz.Core.Codec.{Codec, sent_tx, sent_block}
use blockz.Network.Message.MessageType
use blockz.Network.Message.{
  NetAddr, Message, Payload, tx, block, get_blocks, blocks, status, get_status, get_peers,
  share_peers, new_message, Wire, decode_payload, default_rpc_decode, payload_message,
}

-- What a message carries of a payload.
abbrev pub carried : Payload → Payload
carried (tx t) = tx (sent_tx t)
carried (block b) = block (sent_block b)
carried (get_blocks m) = get_blocks m
carried (blocks bs) = blocks (map sent_block bs)
carried (status m) = status m
carried get_status = get_status
carried get_peers = get_peers
carried (share_peers peers) = share_peers peers

module _ (wire : Wire) {prims : Primitives} (codec : Codec prims) where
  decodes :
      (from : NetAddr) (m : Message) (p : Payload)
      → decode_payload wire codec m ≡ ok p
      → default_rpc_decode wire codec (record { from = from; payload = wire.message_bytes m })
        ≡ ok (record { from = from; payload = p })
  unfolding default_rpc_decode
  decodes from m p h = rw (wire.decode_message_bytes m, h)

  -- The message with the encoding of a value, whose decoder gives back a payload.
  decodes_encoded :
      (from : NetAddr) (encoded : Result Bytes) (t : ℕ) (p : Payload) {m : Message}
      → ((bytes : Bytes)
          → encoded ≡ ok bytes
          → decode_payload wire codec (new_message t bytes) ≡ ok p)
      → (encoded >>= λ bytes. ok (new_message t bytes)) ≡ ok m
      → default_rpc_decode wire codec (record { from = from; payload = wire.message_bytes m })
        ≡ ok (record { from = from; payload = p })
  decodes_encoded from encoded t p {m} decoded built =
      let (bytes, fine, made) =
        bind_inv encoded (λ bytes. ok (new_message t bytes)) {b = m} built in
      decodes from m p (rw (← ok_inj made) (decoded bytes fine))

  -- A node that gets the message of a payload decodes what the message carries of it: a block or a
  -- transaction without its cached hash, and everything else as it was sent.
  pub default_rpc_decode-payload_message :
      (from : NetAddr) (p : Payload) {m : Message}
      → payload_message wire codec p ≡ ok m
      → default_rpc_decode wire codec (record { from = from; payload = wire.message_bytes m })
        ≡ ok (record { from = from; payload = carried p })
  unfolding default_rpc_decode decode_payload payload_message new_message
  default_rpc_decode-payload_message from (tx t) {m} built =
      decodes_encoded from (prims.encode_tx t) MessageType.tx (carried (tx t))
        (λ bytes fine. rw (codec.decode_encode_tx t fine)) built
  default_rpc_decode-payload_message from (block b) {m} built =
      decodes_encoded from (codec.encode_block b) MessageType.block (carried (block b))
        (λ bytes fine. rw (codec.decode_encode_block b fine)) built
  default_rpc_decode-payload_message from (get_blocks g) {m} built =
      decodes_encoded from (wire.get_blocks_gob.encode g) MessageType.get_blocks
        (carried (get_blocks g)) (λ bytes fine. rw (wire.get_blocks_gob.decode_encode g fine)) built
  default_rpc_decode-payload_message from (blocks bs) {m} built =
      decodes_encoded from (wire.blocks_gob.encode bs) MessageType.blocks (carried (blocks bs))
        (λ bytes fine. rw (wire.blocks_gob.decode_encode bs fine)) built
  default_rpc_decode-payload_message from (status st) {m} built =
      decodes_encoded from (wire.status_gob.encode st) MessageType.status (carried (status st))
        (λ bytes fine. rw (wire.status_gob.decode_encode st fine)) built
  default_rpc_decode-payload_message from get_status {m} built =
      decodes from m get_status (rw (← ok_inj built) refl)
  default_rpc_decode-payload_message from get_peers {m} built =
      decodes from m get_peers (rw (← ok_inj built) refl)
  default_rpc_decode-payload_message from (share_peers peers) {m} built =
      decodes_encoded from (wire.peers_gob.encode peers) MessageType.share_peers
        (carried (share_peers peers)) (λ bytes fine. rw (wire.peers_gob.decode_encode peers fine))
        built
