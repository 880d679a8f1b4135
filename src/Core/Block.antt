-- ===== src/Core/Block.antt =====
-- core/block.go: hashes, the data hash, signing and verifying a block.
use blockz.Prelude.{
  ℕ, ◌+◌, ◌%◌, ◌^◌, List, [], ◌∷◌, ◌++◌, none, some, if◌then◌else◌, ◌=?◌, bytes_eq,
}
use blockz.Result.{
  Result, ok, err, ◌>>=◌, ◌>>◌, guard, block_unsigned, block_bad_signature, bad_data_hash,
}
use blockz.Types.{Bytes, Hash, zero_hash, zero_address, is_zero}
use blockz.Core.Data.{PrivateKey, Transaction, Header, Block, Primitives}
use blockz.Core.Transaction.{sha256, signature_verify, tx_verify}

-- `NewBlock`
unfoldable pub new_block : Header → List Transaction → Block
new_block h txx = record {
  header = h;
  transactions = txx;
  evidence = [];
  validator = record { key = none };
  signature = none;
  hash = zero_hash;
}

unfoldable pub add_transaction : Transaction → Block → Block
add_transaction tx b = record b { transactions = b.transactions ++ tx ∷ [] }

module _ (prims : Primitives) where
  -- `BlockHasher.Hash`, also `Header.Hash`
  unfoldable pub block_hasher : Header → Hash
  block_hasher h = sha256 prims (prims.encode_header h)

  -- `Block.Hash`, which keeps what it computes in the block.
  unfoldable pub block_hash : Block → Block × Hash
  block_hash b =
      if is_zero b.hash
      then (record b { hash = block_hasher b.header }, block_hasher b.header)
      else (b, b.hash)

  -- The two loops of `CalculateDataHash`, which fill a buffer.
  unfoldable pub encode_transactions : List Transaction → Result Bytes
  encode_transactions [] = ok []
  encode_transactions (tx ∷ txx) = do
    front ← prims.encode_tx tx
    rest ← encode_transactions txx
    ok (front ++ rest)

  unfoldable pub encode_evidence : List Header → Bytes
  encode_evidence [] = []
  encode_evidence (h ∷ evidence) = prims.encode_header h ++ encode_evidence evidence

  unfoldable pub calculate_data_hash : List Transaction → List Header → Result Hash
  calculate_data_hash txx evidence = do
    buf ← encode_transactions txx
    ok (sha256 prims (buf ++ encode_evidence evidence))

  -- `NewBlockFromPrevHeader`, at a time `now`
  unfoldable pub new_block_from_prev_header : ℕ → Header → List Transaction → Result Block
  new_block_from_prev_header now prev txx = do
    data_hash ← calculate_data_hash txx []
    ok (
        new_block
          (record {
            version = 1;
            data_hash = data_hash;
            prev_block_hash = block_hasher prev;
            state_root = zero_hash;
            height = (prev.height + 1) % 2 ^ 32;
            timestamp = now;
            nonce = 0;
            difficulty = 0;
            coinbase = zero_address;
          })
          txx)

  unfoldable pub block_sign : PrivateKey → Block → Result Block
  block_sign k b = do
    sig ← prims.ecdsa_sign k (prims.encode_header b.header)
    ok (record b { validator = record { key = some k.point }; signature = some sig })

  -- `for _, tx := range b.Transactions { … tx.Verify() … }`
  unfoldable pub verify_transactions : List Transaction → Result (Unit {0})
  verify_transactions [] = ok tt
  verify_transactions (tx ∷ txx) = tx_verify prims tx >> verify_transactions txx

  unfoldable pub block_verify : Block → Result (Unit {0})
  block_verify b = elim b.signature [
    | none ↦ err block_unsigned
    | some sig ↦ do
      valid ← signature_verify prims sig b.validator (prims.encode_header b.header)
      guard valid block_bad_signature
      verify_transactions b.transactions
      data_hash ← calculate_data_hash b.transactions b.evidence
      guard (data_hash =? b.header.data_hash) bad_data_hash
  ]
