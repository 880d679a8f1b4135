-- ===== src/Program/Generator.antt =====
-- main.go: the transactions of `txGeneratorLoop`, and what the node that gets them does with them.
use blockz.Prelude.{ℕ, ◌≡◌, refl, sym, ap, ◌∙◌, true, some}
use blockz.Result.{ok, bind_inv, ok_inj, ◌>>=◌}
use blockz.Types.{Bytes, is_zero}
use blockz.Core.Data.{PrivateKey, Transaction}
use blockz.Core.Codec.{sent_tx}
use blockz.Core.Transaction.{
  new_transaction, tx_sign, tx_verify, tx_hasher, signature_verify, sha256,
}
use blockz.Network.TxPool
use blockz.Network.TxPool.Fifo.{IsPool}
use blockz.Network.Message.{NetAddr, tx, new_message, default_rpc_decode, payload_message}
use blockz.Network.Message.MessageType
use blockz.Network.Message.Decoding.{default_rpc_decode-payload_message}
use blockz.Network.Server.{Env, Server, process_transaction}
use blockz.Network.Server.Dispatch.{handle_rpc, process_payload}
use blockz.Network.Server.Gossip.{
  process_transaction_same_payload, process_transaction-contains, process_transaction-ok,
  tx_verify-cached, hash_of_fresh,
}
use blockz.Network.Server.Creation.Laws.{SignsWell}
use blockz.Program.{sample_contract, test_transaction, test_message}

module _ {T C N Tr : Type 0} (env : Env T C N Tr) where
  tx_sign-inv :
      (k : PrivateKey) (start : Transaction) {t : Transaction}
      → SignsWell env.prims
      → tx_sign env.prims k start ≡ ok t
      → (tx_verify env.prims (sent_tx t) ≡ ok tt) × (t.payload ≡ start.payload)
  unfolding tx_sign tx_verify signature_verify
  tx_sign-inv k start {t} signs_well signed =
      let (sig, fine, same) = bind_inv (env.prims.ecdsa_sign k start.payload) _ {b = t} signed in
      let path = sym (ok_inj same) in
      let good = signs_well k start.payload sig fine in
      (
        ap (λ x. tx_verify env.prims (sent_tx x)) path ∙ rw (tx_verify, signature_verify, good),
        λ i. (path i).payload,
      )

  -- A test message is that of a transaction that verifies, with the sample contract as its payload.
  test_message-inv :
      (from : NetAddr) (k : PrivateKey) {m : Bytes}
      → SignsWell env.prims
      → test_message env k ≡ ok m
      → (t : Transaction) × (tx_verify env.prims (sent_tx t) ≡ ok tt)
        × (t.payload ≡ sample_contract)
        × (default_rpc_decode env.wire env.codec (record { from = from; payload = m })
            ≡ ok (record { from = from; payload = tx (sent_tx t) }))
  unfolding test_message payload_message test_transaction new_transaction
  test_message-inv from k {m} signs_well made =
      let (t, signed, rest) = bind_inv (tx_sign env.prims k test_transaction) _ {b = m} made in
      let (content, encoded, sent) = bind_inv (env.prims.encode_tx t) _ {b = m} rest in
      let (good, same) = tx_sign-inv k test_transaction signs_well signed in
      let built : payload_message env.wire env.codec (tx t)
          ≡ ok (new_message MessageType.tx content) =
        ap (λ e. e >>= λ b. ok (new_message MessageType.tx b)) encoded in
      let read = default_rpc_decode-payload_message env.wire env.codec from (tx t) built in
      (
        t,
        good,
        same,
        ap (λ x. default_rpc_decode env.wire env.codec (record { from = from; payload = x }))
              (sym (ok_inj sent))
            ∙ read,
      )

  handle_rpc-tx :
      (fuel rounds now : ℕ) (from : NetAddr) (m : Bytes) (t : Transaction) (s : Server T C N Tr)
      → default_rpc_decode env.wire env.codec (record { from = from; payload = m })
        ≡ ok (record { from = from; payload = tx t })
      → handle_rpc env fuel rounds now (record { from = from; payload = m }) s
        ≡ some (process_transaction env now t s)
  unfolding handle_rpc process_payload
  handle_rpc-tx fuel rounds now from m t s decoded = rw (handle_rpc, decoded)

  -- A node whose pool is in order takes a message of the test generator into its pool, where signatures
  -- are verified. The next message that reaches it is dropped without an error and without a change,
  -- though it is signed with another key: all the generated transactions have the same payload, and
  -- with it the same hash.
  pub test_message_twice :
      (fuel rounds now later : ℕ) (from : NetAddr) (k k' : PrivateKey) {m m' : Bytes}
      (s : Server T C N Tr)
      → SignsWell env.prims
      → IsPool env.prims s.mem_pool
      → test_message env k ≡ ok m
      → test_message env k' ≡ ok m'
      → (s' : Server T C N Tr) × (handle_rpc env fuel rounds now
            (record { from = from; payload = m })
            s
          ≡ some (s', ok tt))
        × (TxPool.contains (sha256 env.prims sample_contract) s'.mem_pool ≡ true)
        × (handle_rpc env fuel rounds later (record { from = from; payload = m' }) s'
            ≡ some (s', ok tt))
  unfolding is_zero tx_hasher
  test_message_twice fuel rounds now later from k k' {m} {m'} s signs_well pool made made' =
      let (t, good, payload, decoded) = test_message-inv from k signs_well made in
      let (t', good', payload', decoded') = test_message-inv from k' signs_well made' in
      let s' = (process_transaction env now (sent_tx t) s).0 in
      let valid = tx_verify-cached env (sent_tx t) ∙ good in
      let hashed = hash_of_fresh env (sent_tx t) refl ∙ ap (sha256 env.prims) payload in
      let again =
        process_transaction_same_payload env now later (sent_tx t) (sent_tx t') s pool
          (payload ∙ sym payload') refl refl good in
      (
        s',
        handle_rpc-tx fuel rounds now from m (sent_tx t) s decoded
            ∙ ap (λ r. some (s', r)) (process_transaction-ok env now (sent_tx t) s pool valid),
        ap (λ h. TxPool.contains h s'.mem_pool) (sym hashed)
            ∙ process_transaction-contains env now (sent_tx t) s pool valid,
        handle_rpc-tx fuel rounds later from m' (sent_tx t') s' decoded' ∙ ap some again,
      )
