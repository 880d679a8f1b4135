-- ===== src/Core/Storage/LevelDb/Puts.antt =====
-- core/leveldb_storage.go: what a `Put` that succeeded has written.
use blockz.Prelude.{
  ◌≡◌, refl, sym, ap, ◌∙◌, false, List, [], ◌∷◌, none, some, map, length, ◌=?◌, bytes_eq, arith,
  Bool-cases, inl, inr,
}
use blockz.Result.{Result, ok, and_then, and_then-ok, attempt, attempt-ok}
use blockz.Types.{Bytes, Hash, zero_hash, is_zero}
use blockz.Core.Data.{Transaction, Block, Primitives}
use blockz.Core.Transaction.{tx_hash}
use blockz.Core.Block.{block_hash}
use blockz.Core.Codec.{Codec, sent_tx, sent_block}
use blockz.Core.Storage.Memory.{with_hashes}
use blockz.Core.Storage.Memory.Index.{last_with}
use blockz.Core.Storage.LevelDb.{
  Database, height_key, block_hash_key, tx_key, put_transactions, put_data, put, get_tx_by_hash,
}
use blockz.Core.Storage.LevelDb.Keys.{tx_key_beq}

module _ {D : Type 0} (db : Database D) (prims : Primitives) (codec : Codec prims) where
  abbrev pub hash_of : Transaction → Hash
  hash_of tx = (tx_hash prims tx).1

  pub sent_cached : (tx : Transaction) → sent_tx (tx_hash prims tx).0 ≡ sent_tx tx
  unfolding tx_hash
  sent_cached tx = ground arith

  sent_all_cached :
      (txx : List Transaction)
      → map sent_tx (map (λ tx. (tx_hash prims tx).0) txx) ≡ map sent_tx txx
  sent_all_cached [] = refl
  sent_all_cached (tx ∷ txx) = rw (sent_cached tx, sent_all_cached txx)

  -- A gob of a block does not carry the hashes that the block has cached.
  pub sent_with_hashes : (b : Block) → sent_block (with_hashes prims b) ≡ sent_block b
  unfolding with_hashes block_hash
  sent_with_hashes b = elim (Bool-cases (is_zero b.hash)) [
    | inl fresh ↦
        rw (with_hashes, block_hash, fresh)
          (λ i. record b { transactions = sent_all_cached b.transactions i; hash = zero_hash })
    | inr cached ↦
        rw (with_hashes, block_hash, cached)
          (λ i. record b { transactions = sent_all_cached b.transactions i; hash = zero_hash })
  ]

  -- The hashes of the transactions are arrays of 32 bytes.
  abbrev pub AreHashed : List Transaction → Type 0
  AreHashed [] = Unit
  AreHashed (tx ∷ txx) = (length (hash_of tx) ≡ 32) × AreHashed txx

  put_transactions-inv :
      (tx : Transaction) (txx : List Transaction) (d : D) {d' : D}
      → put_transactions db prims codec (tx ∷ txx) d ≡ (d', ok tt)
      → (d₁ : D) × (bytes : Bytes) × (prims.encode_tx tx ≡ ok bytes)
        × (db.put d (tx_key (hash_of tx)) bytes ≡ (d₁, ok tt))
        × (put_transactions db prims codec txx d₁ ≡ (d', ok tt))
  unfolding put_transactions
  put_transactions-inv tx txx d {d'} done =
      let write = attempt d (prims.encode_tx tx) λ bytes. db.put d (tx_key (hash_of tx)) bytes in
      let (fine, rest) = and_then-ok write (λ s. put_transactions db prims codec txx s) done in
      let (bytes, encoded, put) =
        attempt-ok d (prims.encode_tx tx) (λ bytes. db.put d (tx_key (hash_of tx)) bytes)
          {s' = write.0} (λ i. (write.0, fine i)) in
      (write.0, bytes, encoded, put, rest)

  -- Of the transactions, only their own keys are written.
  pub put_transactions-other :
      (txx : List Transaction) (d : D) {d' : D} (key : Bytes)
      → ((h : Hash) → (tx_key h =? key) ≡ false)
      → put_transactions db prims codec txx d ≡ (d', ok tt)
      → db.get d' key ≡ db.get d key
  unfolding put_transactions
  put_transactions-other [] d {d'} key other done =
      ap (λ s. db.get s key) (sym (ap (λ p. p.0) done))
  put_transactions-other (tx ∷ txx) d {d'} key other done =
      let (d₁, bytes, encoded, put, rest) = put_transactions-inv tx txx d {d' = d'} done in
      let this = db.get-put d d₁ (tx_key (hash_of tx)) bytes put key in
      put_transactions-other txx d₁ key other rest ∙ rw (other (hash_of tx)) at this

  -- A transaction hash leads to the last transaction that has it.
  pub put_transactions-finds :
      (txx : List Transaction) (d : D) {d' : D} (h : Hash)
      → length h ≡ 32
      → AreHashed txx
      → put_transactions db prims codec txx d ≡ (d', ok tt)
      → get_tx_by_hash db prims codec d' h ≡ elim (last_with prims h txx) [
        | none ↦ get_tx_by_hash db prims codec d h
        | some tx ↦ ok (sent_tx tx)
      ]
  unfolding put_transactions get_tx_by_hash last_with
  put_transactions-finds [] d {d'} h full hashed done =
      ap (λ s. get_tx_by_hash db prims codec s h) (sym (ap (λ p. p.0) done))
  put_transactions-finds (tx ∷ txx) d {d'} h full hashed done =
      let (d₁, bytes, encoded, put, rest) = put_transactions-inv tx txx d {d' = d'} done in
      let this = db.get-put d d₁ (tx_key (hash_of tx)) bytes put (tx_key h) in
      let later = put_transactions-finds txx d₁ h full hashed.1 rest in
      ground (
        arith,
        later,
        this,
        tx_key_beq (hash_of tx) h hashed.0 full,
        codec.decode_encode_tx tx encoded,
        sent_cached tx,
      )

  pub put-inv :
      (b : Block) (d : D) {d' : D}
      → put db prims codec d b ≡ (d', ok tt)
      → (d₁ d₂ : D) × (bytes : Bytes) × (codec.encode_block b ≡ ok bytes)
        × (db.put d (height_key b.header.height) bytes ≡ (d₁, ok tt))
        × (db.put d₁ (block_hash_key (block_hash prims b).1) bytes ≡ (d₂, ok tt))
        × (put_transactions db prims codec b.transactions d₂ ≡ (d', ok tt))
  unfolding put put_data
  put-inv b d {d'} done =
      let (bytes, encoded, wrote) =
        attempt-ok d (codec.encode_block b) (λ bytes. put_data db prims codec b bytes d) {s' = d'}
          done in
      let first = db.put d (height_key b.header.height) bytes in
      let then_hash : D → D × Result (Unit {0}) =
        λ s. db.put s (block_hash_key (block_hash prims b).1) bytes in
      let second = and_then first then_hash in
      let (fine, rest) =
        and_then-ok second (λ s. put_transactions db prims codec b.transactions s) {s' = d'}
          wrote in
      let (fine₁, hashed) = and_then-ok first then_hash {s' = second.0} (λ i. (second.0, fine i)) in
      (first.0, second.0, bytes, encoded, λ i. (first.0, fine₁ i), hashed, rest)
