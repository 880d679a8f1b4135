-- ===== src/Core/Transaction.antt =====
-- core/transaction.go, core/hasher.go and the keys of crypto/keypair.go.
use blockz.Prelude.{
  ℕ, Bool, false, none, some, if◌then◌else◌, drop, ◌≡◌, refl, arith, Bool-cases, inl, inr,
}
use blockz.Result.{Result, ok, err, panic, nil_dereference, tx_unsigned, tx_bad_signature, ◌>>=◌}
use blockz.Types.{Bytes, Address, Hash, zero_hash, zero_address, is_zero, address_from_bytes}
use blockz.Core.Data.{PublicKey, PrivateKey, Signature, Transaction, Primitives}

-- `NewTransaction`
unfoldable pub new_transaction : Bytes → Transaction
new_transaction payload = record {
  payload = payload;
  to = zero_address;
  value = 0;
  nonce = 0;
  gas_limit = 0;
  gas_price = 0;
  from = record { key = none };
  signature = none;
  hash = zero_hash;
  first_seen = 0;
}

unfoldable pub set_first_seen : ℕ → Transaction → Transaction
set_first_seen t tx = record tx { first_seen = t }

module _ (prims : Primitives) where
  abbrev pub sha256 : Bytes → Hash
  sha256 = prims.host.sha256

  -- `PublicKey.ToSlice`: a nil key is dereferenced. The other keys are points of the curve, as those
  -- that are generated or decoded are: `MarshalCompressed` panics on others.
  unfoldable pub key_to_slice : PublicKey → Result Bytes
  key_to_slice k = elim k.key [
    | none ↦ panic nil_dereference
    | some p ↦ ok (prims.marshal_compressed p.0 p.1)
  ]

  -- `PublicKey.Address`: the last 20 of the 32 bytes of the hash.
  unfoldable pub key_address : PublicKey → Result Address
  key_address k = key_to_slice k >>= λ b. address_from_bytes (drop 12 (sha256 b))

  -- `Signature.Verify`
  unfoldable pub signature_verify : Signature → PublicKey → Bytes → Result Bool
  signature_verify sig k message = prims.ecdsa_verify k.key message sig.r sig.s

  -- `TxHasher.Hash`: of the payload alone.
  unfoldable pub tx_hasher : Transaction → Hash
  tx_hasher tx = sha256 tx.payload

  -- `Transaction.Hash`, which keeps what it computes in the transaction.
  unfoldable pub tx_hash : Transaction → Transaction × Hash
  tx_hash tx =
      if is_zero tx.hash then (record tx { hash = tx_hasher tx }, tx_hasher tx) else (tx, tx.hash)

  unfoldable pub tx_sign : PrivateKey → Transaction → Result Transaction
  tx_sign k tx = do
    sig ← prims.ecdsa_sign k tx.payload
    ok (record tx { from = record { key = some k.point }; signature = some sig })

  unfoldable pub tx_verify : Transaction → Result (Unit {0})
  tx_verify tx = elim tx.signature [
    | none ↦ err tx_unsigned
    | some sig ↦ signature_verify sig tx.from tx.payload >>= λ valid.
        if valid then ok tt else err tx_bad_signature
  ]

  -- The cached hash is that of the payload, or not there yet.
  abbrev pub IsCached : Transaction → Type 0
  IsCached tx = (is_zero tx.hash ≡ false) → tx.hash ≡ tx_hasher tx

  -- With a cache that is right, `Hash` returns the hash of the payload and leaves a right cache.
  pub tx_hash_lem :
      (tx : Transaction) → IsCached tx → ((tx_hash tx).1 ≡ tx_hasher tx) × IsCached (tx_hash tx).0
  unfolding tx_hash tx_hasher
  tx_hash_lem tx h = elim (Bool-cases (is_zero tx.hash)) [
    | inl fresh ↦ (rw (tx_hash, fresh), rw (tx_hash, fresh) (λ _. refl))
    | inr cached ↦ (rw (tx_hash, cached) (h cached), rw (tx_hash, cached) h)
  ]

  -- A signature vouches for the payload alone: with any other recipient, value, nonce, gas limit and
  -- gas price the transaction has the same hash, and passes `Verify` just as it did.
  pub tx_verify_malleable :
      (tx : Transaction) (to : Address) (value nonce gas_limit gas_price : ℕ)
      → let tx' = record tx {
        to = to;
        value = value;
        nonce = nonce;
        gas_limit = gas_limit;
        gas_price = gas_price;
      } in
        (tx_verify tx' ≡ tx_verify tx) × ((tx_hash tx').1 ≡ (tx_hash tx).1)
  unfolding tx_verify tx_hash tx_hasher
  tx_verify_malleable tx to value nonce gas_limit gas_price = (refl, ground arith)
