-- ===== src/Tests/Wires.antt =====
-- Encodings of messages, and a node over them.
use blockz.Prelude.{false, ◌≡◌, refl, List, [], ◌∷◌, map}
use blockz.Result.{Result, ok, ok_inj, err, codec_failure}
use blockz.Types.{Bytes}
use blockz.Core.Data.{Block}
use blockz.Core.Codec.{sent_block}
use blockz.Consensus.Pow.{PowEngine, pow_engine}
use blockz.Core.Storage.Memory.{MemoryStore}
use blockz.Core.Storage.Memory.Index.{memory_storage}
use blockz.Network.Message.{NetAddr, Message, StatusMessage, GetBlocksMessage, Wire}
use blockz.Network.Server.{Transports, Env}
use blockz.Tests.Nodes.{net_prims, test_codec}

abbrev pub encode_blocks : List Block → Result Bytes
encode_blocks [] = ok []
encode_blocks (b ∷ bs) = err codec_failure

abbrev pub status_bytes : StatusMessage → Result Bytes
status_bytes m = ok (m.version ∷ m.height ∷ m.id)

abbrev pub bytes_status : Bytes → Result StatusMessage
bytes_status (v ∷ h ∷ id) = ok (record { id = id; version = v; height = h })
bytes_status bytes = err codec_failure

abbrev pub range_bytes : GetBlocksMessage → Result Bytes
range_bytes m = ok (m.from ∷ m.to ∷ [])

abbrev pub bytes_range : Bytes → Result GetBlocksMessage
bytes_range (from ∷ to ∷ []) = ok (record { from = from; to = to })
bytes_range bytes = err codec_failure

-- At most one address
abbrev pub peers_bytes : List NetAddr → Result Bytes
peers_bytes [] = ok []
peers_bytes (a ∷ []) = ok (1 ∷ a)
peers_bytes (a ∷ b ∷ addrs) = err codec_failure

abbrev pub bytes_peers : Bytes → Result (List NetAddr)
bytes_peers [] = ok []
bytes_peers (x ∷ a) = ok (a ∷ [])

abbrev pub bytes_message : Bytes → Result Message
bytes_message [] = err codec_failure
bytes_message (h ∷ content) = ok (record { header = h; content = content })

pub blocks_roundtrip :
    (bs : List Block) (bytes : Bytes) → encode_blocks bs ≡ ok bytes → ok [] ≡ ok (map sent_block bs)
blocks_roundtrip [] bytes h = refl
blocks_roundtrip (b ∷ bs) bytes h = absurd (cc h)

pub status_roundtrip :
    (m : StatusMessage) (bytes : Bytes) → status_bytes m ≡ ok bytes → bytes_status bytes ≡ ok m
status_roundtrip m bytes h = rw (← ok_inj h) refl

pub range_roundtrip :
    (m : GetBlocksMessage) (bytes : Bytes) → range_bytes m ≡ ok bytes → bytes_range bytes ≡ ok m
range_roundtrip m bytes h = rw (← ok_inj h) refl

pub peers_roundtrip :
    (addrs : List NetAddr) (bytes : Bytes)
    → peers_bytes addrs ≡ ok bytes
    → bytes_peers bytes ≡ ok addrs
peers_roundtrip [] bytes h = rw (← ok_inj h) refl
peers_roundtrip (a ∷ []) bytes h = rw (← ok_inj h) refl
peers_roundtrip (a ∷ b ∷ addrs) bytes h = absurd (cc h)

abbrev pub test_wire : Wire
test_wire = record {
  message_bytes = λ m. m.header ∷ m.content;
  decode_message = bytes_message;
  decode_message_bytes = λ m. refl;
  get_blocks_gob = record {
    encode = range_bytes;
    decode = bytes_range;
    decode_encode = λ m {bytes} h. range_roundtrip m bytes h;
  };
  blocks_gob = record {
    encode = encode_blocks;
    decode = λ bytes. ok [];
    decode_encode = λ bs {bytes} h. blocks_roundtrip bs bytes h;
  };
  status_gob = record {
    encode = status_bytes;
    decode = bytes_status;
    decode_encode = λ m {bytes} h. status_roundtrip m bytes h;
  };
  peers_gob = record {
    encode = peers_bytes;
    decode = bytes_peers;
    decode_encode = λ addrs {bytes} h. peers_roundtrip addrs bytes h;
  };
}

abbrev pub Log : Type 0
Log = List (NetAddr × Bytes)

-- A transport is its address; what it sends is logged.
abbrev pub test_transports : Transports Log NetAddr
test_transports = record {
  send_message = λ tr n to bytes. ((to, bytes) ∷ n, ok tt);
  broadcast = λ tr n bytes. ((tr, bytes) ∷ n, ok tt);
  connect = λ tr n to. ((to, []) ∷ n, ok tt);
  addr = λ tr. tr;
}

abbrev pub test_env : Env MemoryStore PowEngine Log NetAddr
test_env = record {
  prims = net_prims;
  codec = test_codec;
  wire = test_wire;
  storage = memory_storage net_prims;
  engine = pow_engine net_prims (λ n. false);
  transports = test_transports;
}
