-- ===== src/Api/Writes.antt =====
-- api/rpc.go: a transaction that a client sends to a node.
use blockz.Prelude.{ℕ, ◌≡◌, refl, ◌∙◌, List, [], ◌∷◌, ◌++◌, ◌||◌, if◌then◌else◌, bytes_eq}
use blockz.Result.{ok}
use blockz.Text.Hex.{hex_encode}
use blockz.Text.Hex.Laws.{AreBytes, hex_decode-hex_encode}
use blockz.Types.{Bytes, is_zero}
use blockz.Core.Data.{Transaction}
use blockz.Core.Codec.{sent_tx}
use blockz.Core.Transaction.{tx_hasher, tx_verify}
use blockz.Network.SortedMap.{hash_of}
use blockz.Network.TxPool
use blockz.Network.TxPool.{pending}
use blockz.Network.SortedMap.Index.{has_hash}
use blockz.Network.TxPool.Fifo.{IsPool}
use blockz.Network.Server.{Env, Server}
use blockz.Network.Server.Gossip.{tx_verify-cached, process_transaction-ok, hash_of_fresh}
use blockz.Network.Server.Inclusion.{process_transaction-pending}
use blockz.Api.{Json, text, with_prefix, first_param, raw_param, handle_send_raw_transaction}
use blockz.Api.Reads.{strip_prefix_lem}

module _ {T C N Tr : Type 0} (json : Json) (env : Env T C N Tr) where
  raw_param_lem :
      (p : Bytes) (params : List Bytes) (raw : Bytes)
      → AreBytes raw
      → json.unmarshal_string p ≡ ok (with_prefix (hex_encode raw))
      → raw_param json (p ∷ params) ≡ ok raw
  unfolding raw_param first_param
  raw_param_lem p params raw all given = rw (
    raw_param,
    first_param,
    given,
    strip_prefix_lem (hex_encode raw),
    hex_decode-hex_encode raw all,
  )

  tx_verify-sent : (t : Transaction) → tx_verify env.prims (sent_tx t) ≡ tx_verify env.prims t
  unfolding tx_verify
  tx_verify-sent t = refl

  -- A client sends the encoding of a transaction that verifies, in hexadecimal, to a node whose pool is
  -- in order. The answer is in hexadecimal the hash of the whole encoding. The transaction goes behind
  -- those that wait, with all of it that is sent, unless the pool knows the hash of its data already, or
  -- a transaction that waits has it; then those that wait stay as they are.
  pub handle_send_raw_transaction_lem :
      (now : ℕ) (p : Bytes) (params : List Bytes) (t : Transaction) (raw : Bytes)
      (s : Server T C N Tr)
      → IsPool env.prims s.mem_pool
      → tx_verify env.prims t ≡ ok tt
      → env.prims.encode_tx t ≡ ok raw
      → AreBytes raw
      → json.unmarshal_string p ≡ ok (with_prefix (hex_encode raw))
      → let outcome = handle_send_raw_transaction json env now (p ∷ params) s in
        (outcome.1 ≡ ok (text (with_prefix (hex_encode (env.prims.host.sha256 raw)))))
        × (tx' : Transaction) × (sent_tx tx' ≡ sent_tx t)
        × (pending outcome.0.mem_pool ≡ (
            if TxPool.contains (env.prims.host.sha256 t.payload) s.mem_pool
              || has_hash env.prims (env.prims.host.sha256 t.payload) (pending s.mem_pool)
            then pending s.mem_pool
            else pending s.mem_pool ++ tx' ∷ []))
  unfolding handle_send_raw_transaction tx_hasher is_zero
  handle_send_raw_transaction_lem now p params t raw s pool good encoded all given =
      let read = raw_param_lem p params raw all given in
      let decoded = env.codec.decode_encode_tx t encoded in
      let fine = tx_verify-sent t ∙ good in
      let taken =
        process_transaction-ok env now (sent_tx t) s pool
          (tx_verify-cached env (sent_tx t) ∙ fine) in
      let (tx', whole, waits) = process_transaction-pending env now (sent_tx t) s pool fine in
      let hash : hash_of env.prims (sent_tx t) ≡ env.prims.host.sha256 t.payload =
        hash_of_fresh env (sent_tx t) refl in
      (
        rw (handle_send_raw_transaction, read, decoded, taken),
        tx',
        whole,
        rw (handle_send_raw_transaction, read, decoded) (rw (hash) at waits),
      )
