-- ===== src/Core/Codec.antt =====
-- core/encoding.go: the gob encoders and decoders of blocks and of transactions, over the gob
-- library. An encoder of transactions is also one of the `Primitives`, which hash what it writes.
use blockz.Prelude.{◌≡◌, map}
use blockz.Result.{Result, ok}
use blockz.Types.{Bytes, zero_hash}
use blockz.Core.Data.{Transaction, Block, Primitives}

-- What a gob carries: the exported fields. The cached hash and the time of arrival are not.
abbrev pub sent_tx : Transaction → Transaction
sent_tx tx = record tx { hash = zero_hash; first_seen = 0 }

abbrev pub sent_block : Block → Block
sent_block b = record b { transactions = map sent_tx b.transactions; hash = zero_hash }

-- What is written without an error can be read, and carries the exported fields.
pub record Codec (prims : Primitives) : Type 0 where
  pub decode_tx : Bytes → Result Transaction
  pub encode_block : Block → Result Bytes
  pub decode_block : Bytes → Result Block
  pub decode_encode_tx :
      (tx : Transaction) {bytes : Bytes}
      → prims.encode_tx tx ≡ ok bytes
      → decode_tx bytes ≡ ok (sent_tx tx)
  pub decode_encode_block :
      (b : Block) {bytes : Bytes}
      → encode_block b ≡ ok bytes
      → decode_block bytes ≡ ok (sent_block b)
