-- ===== src/Network/Message.antt =====
-- network/rpc.go: the messages between nodes and `DefaultRPCDecodeFunc`. A string is its bytes. The gob
-- encoders of the messages are parameters.
pub mod MessageType
pub mod Decoding
use blockz.Prelude.{ℕ, List, [], ◌∷◌, ◌==◌, if◌then◌else◌, ◌≡◌, map}
use blockz.Result.{Result, ok, err, ◌>>=◌, bad_message_type}
use blockz.Types.{Bytes}
use blockz.Network.Message.MessageType
use blockz.Core.Data.{Transaction, Block, Primitives}
use blockz.Core.Codec.{Codec, sent_block}

abbrev pub NetAddr : Type 0
NetAddr = Bytes

pub record Rpc : Type 0 where
  pub from : NetAddr
  pub payload : Bytes

pub record Message : Type 0 where
  pub header : ℕ
  pub content : Bytes

pub record StatusMessage : Type 0 where
  pub id : Bytes
  pub version : ℕ
  pub height : ℕ

-- A `to` of 0 asks for all blocks from `from` on.
pub record GetBlocksMessage : Type 0 where
  pub from : ℕ
  pub to : ℕ

-- `DecodedMessage.Data`
pub data Payload : Type 0 where
  tx : Transaction → Payload
  block : Block → Payload
  get_blocks : GetBlocksMessage → Payload
  blocks : List Block → Payload
  status : StatusMessage → Payload
  get_status get_peers : Payload
  share_peers : List NetAddr → Payload

pub record DecodedMessage : Type 0 where
  pub from : NetAddr
  pub payload : Payload

-- `NewMessage`
unfoldable pub new_message : ℕ → Bytes → Message
new_message t content = record { header = t; content = content }

-- A gob encoder and decoder, with what a gob carries of a value.
pub record Gob (A : Type 0) (carried : A → A) : Type 0 where
  pub encode : A → Result Bytes
  pub decode : Bytes → Result A
  pub decode_encode : (a : A) {bytes : Bytes} → encode a ≡ ok bytes → decode bytes ≡ ok (carried a)

-- `Message.Bytes` drops the error of its encoder, which has none for a byte and a byte slice.
pub record Wire : Type 0 where
  pub message_bytes : Message → Bytes
  pub decode_message : Bytes → Result Message
  pub decode_message_bytes : (m : Message) → decode_message (message_bytes m) ≡ ok m
  pub get_blocks_gob : Gob GetBlocksMessage (λ m. m)
  pub blocks_gob : Gob (List Block) (map sent_block)
  pub status_gob : Gob StatusMessage (λ m. m)
  pub peers_gob : Gob (List NetAddr) (λ peers. peers)

module _ (wire : Wire) {prims : Primitives} (codec : Codec prims) where
  -- The `switch` of `DefaultRPCDecodeFunc` on the type of the message
  unfoldable pub decode_payload : Message → Result Payload
  decode_payload m =
      if m.header == MessageType.tx
      then (codec.decode_tx m.content >>= λ t. ok (tx t))
      else if m.header == MessageType.block
      then (codec.decode_block m.content >>= λ b. ok (block b))
      else if m.header == MessageType.get_blocks
      then (wire.get_blocks_gob.decode m.content >>= λ g. ok (get_blocks g))
      else if m.header == MessageType.blocks
      then (wire.blocks_gob.decode m.content >>= λ bs. ok (blocks bs))
      else if m.header == MessageType.status
      then (wire.status_gob.decode m.content >>= λ st. ok (status st))
      else if m.header == MessageType.get_status
      then ok get_status
      else if m.header == MessageType.get_peers
      then ok get_peers
      else if m.header == MessageType.share_peers
      then (wire.peers_gob.decode m.content >>= λ peers. ok (share_peers peers))
      else err bad_message_type

  -- `DefaultRPCDecodeFunc`
  unfoldable pub default_rpc_decode : Rpc → Result DecodedMessage
  default_rpc_decode rpc = do
    m ← wire.decode_message rpc.payload
    payload ← decode_payload m
    ok (record { from = rpc.from; payload = payload })

  -- The messages that the methods of the server build: the type, and the encoded payload
  unfoldable pub payload_message : Payload → Result Message
  payload_message (tx t) = prims.encode_tx t >>= λ b. ok (new_message MessageType.tx b)
  payload_message (block b) = codec.encode_block b >>= λ c. ok (new_message MessageType.block c)
  payload_message (get_blocks m) =
      wire.get_blocks_gob.encode m >>= λ b. ok (new_message MessageType.get_blocks b)
  payload_message (blocks bs) =
      wire.blocks_gob.encode bs >>= λ b. ok (new_message MessageType.blocks b)
  payload_message (status m) =
      wire.status_gob.encode m >>= λ b. ok (new_message MessageType.status b)
  payload_message get_status = ok (new_message MessageType.get_status [])
  payload_message get_peers = ok (new_message MessageType.get_peers [])
  payload_message (share_peers peers) =
      wire.peers_gob.encode peers >>= λ b. ok (new_message MessageType.share_peers b)
