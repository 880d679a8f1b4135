-- ===== src/Tests/Generated.antt =====
-- The messages of the test generator, with encodings of the transactions that two keys sign.
use blockz.Prelude.{
  ◌≡◌, refl, sym, ap, ℕ, true, false, [], ◌∷◌, some, if◌then◌else◌, ◌=?◌, pos, Bool-cases, inl, inr,
  bytes_eq, arith,
}
use blockz.Result.{Result, ok, ok_inj, err, codec_failure}
use blockz.Types.{Bytes, zero_hash, zero_address}
use blockz.Core.Data.{PrivateKey, Transaction, Block, Primitives}
use blockz.Core.Data.Equality.{transaction_eq, transaction_beq_iff}
use blockz.Core.Codec.{Codec, sent_tx, sent_block}
use blockz.Core.Storage.Memory.{MemoryStore}
use blockz.Core.Storage.Memory.Index.{memory_storage}
use blockz.Core.Transaction.{sha256, tx_sign, new_transaction}
use blockz.Consensus.Pow.{PowEngine, pow_engine}
use blockz.Network.TxPool
use blockz.Network.TxPool.Fifo.{IsPool, new_tx_pool-IsPool}
use blockz.Network.Message.{NetAddr}
use blockz.Network.Server.{Env}
use blockz.Network.Server.Dispatch.{handle_rpc}
use blockz.Program.{sample_contract, test_transaction, test_message}
use blockz.Program.Generator.{test_message_twice}
use blockz.Tests.{test_prims}
use blockz.Tests.Wires.{Log, test_wire, test_transports}
use blockz.Tests.Network.{program, Node, behind, there_addr}

abbrev first_key : PrivateKey
first_key = record { secret = 1; point = (7, 0) }

abbrev second_key : PrivateKey
second_key = record { secret = 2; point = (8, 0) }

-- What a key with this point signs, as a gob carries it
abbrev generated : ℕ × ℕ → Transaction
generated point = record {
  payload = 96 ∷ 5 ∷ 96 ∷ 0 ∷ 85 ∷ 96 ∷ 0 ∷ 84 ∷ 96 ∷ 0 ∷ 82 ∷ 96 ∷ 32 ∷ 96 ∷ 0 ∷ 243 ∷ [];
  to = zero_address;
  value = 0;
  nonce = 0;
  gas_limit = 10000;
  gas_price = 1;
  from = record { key = some point };
  signature = some (record { s = some (pos 1); r = some (pos 1) });
  hash = zero_hash;
  first_seen = 0;
}

abbrev encode_generated : Transaction → Result Bytes
encode_generated tx =
    if sent_tx tx =? generated (7, 0)
    then ok (7 ∷ [])
    else if sent_tx tx =? generated (8, 0)
    then ok (8 ∷ [])
    else err codec_failure

abbrev decode_generated : Bytes → Result Transaction
decode_generated b = if b =? 7 ∷ [] then ok (generated (7, 0)) else ok (generated (8, 0))

decode_encode_generated :
    (tx : Transaction) (b : Bytes)
    → encode_generated tx ≡ ok b
    → decode_generated b ≡ ok (sent_tx tx)
decode_encode_generated tx b h = elim (Bool-cases (sent_tx tx =? generated (7, 0))) [
  | inl one ↦
      let same = (transaction_beq_iff (sent_tx tx) (generated (7, 0))).0 one in
      let bytes : 7 ∷ [] ≡ b = ok_inj (rw (one) at h) in rw (← bytes) (ap ok (sym same))
  | inr not_first ↦ elim (Bool-cases (sent_tx tx =? generated (8, 0))) [
    | inl two ↦
        let same = (transaction_beq_iff (sent_tx tx) (generated (8, 0))).0 two in
        let bytes : 8 ∷ [] ≡ b = ok_inj (rw (not_first, two) at h) in
        rw (← bytes) (ap ok (sym same))
    | inr neither ↦ absurd (cc (rw (not_first, neither) at h))
  ]
]

no_encoding :
    (b : Block) (bytes : Bytes)
    → err codec_failure ≡ ok bytes
    → err codec_failure ≡ ok (sent_block b)
no_encoding b bytes h = absurd (cc h)

abbrev generator_prims : Primitives
generator_prims = record test_prims { encode_tx = encode_generated }

abbrev generator_codec : Codec generator_prims
generator_codec = record {
  decode_tx = decode_generated;
  encode_block = λ b. err codec_failure;
  decode_block = λ bytes. err codec_failure;
  decode_encode_tx = λ tx {bytes} h. decode_encode_generated tx bytes h;
  decode_encode_block = λ b {bytes} h. no_encoding b bytes h;
}

abbrev generator_env : Env MemoryStore PowEngine Log NetAddr
generator_env = record {
  prims = generator_prims;
  codec = generator_codec;
  wire = test_wire;
  storage = memory_storage generator_prims;
  engine = pow_engine generator_prims (λ n. false);
  transports = test_transports;
}

behind-IsPool : IsPool generator_prims behind.mem_pool
behind-IsPool = new_tx_pool-IsPool generator_prims 10000 (omega arith)

-- The messages of the two keys
test_message_twice_example :
    (s' : Node) × (handle_rpc generator_env 101 5 3
        (record { from = there_addr; payload = 1 ∷ 7 ∷ [] })
        behind
      ≡ some (s', ok tt))
    × (TxPool.contains (sha256 generator_prims sample_contract) s'.mem_pool ≡ true)
    × (handle_rpc generator_env 101 5 4 (record { from = there_addr; payload = 1 ∷ 8 ∷ [] }) s'
        ≡ some (s', ok tt))
unfolding program test_message test_transaction tx_sign new_transaction sample_contract
test_message_twice_example =
    test_message_twice generator_env 101 5 3 4 there_addr first_key second_key behind
      (λ k message sig signed. refl) behind-IsPool refl refl
