-- ===== src/Network/Server/Gossip.antt =====
-- network/server.go: what a node does with blocks that do not fit, and with transactions that it takes
-- for ones that it has.
use blockz.Prelude.{
  ℕ, ◌+◌, ◌%◌, ◌^◌, leb, ◌≡◌, ◌≢◌, sym, ap, ◌∙◌, some, arith, Bool-cases, inl, inr, true, false,
  ◌==◌, bytes_eq, if◌then◌else◌,
}
use blockz.Result.{Result, Error, ok, err, ok_inj, Result-cases, already_contains, too_high}
use blockz.Map.{has}
use blockz.Map.Laws.{lookup-insert_self}
use blockz.Types.{is_zero}
use blockz.Core.Data.{Transaction, Block, Primitives}
use blockz.Core.Transaction.{tx_hash, tx_hasher, tx_verify, set_first_seen}
use blockz.Core.Blockchain.{Blockchain, height, has_block, check_link, validate_block, add_block}
use blockz.Core.Blockchain.Chain.{IsChain, height-length}
use blockz.Network.SortedMap
use blockz.Network.SortedMap.{TxSortedMap, cached, hash_of}
use blockz.Network.TxPool
use blockz.Network.TxPool.{TxPool, prune}
use blockz.Network.TxPool.Fifo.{IsPool, add-refines}
use blockz.Network.Message.{NetAddr}
use blockz.Network.Server.{
  Env, Server, process_block, block_refused, request_blocks_sync, process_transaction, broadcast_tx,
}

module _ (prims : Primitives) where
  added_has :
      (tx : Transaction) (t : TxSortedMap)
      → SortedMap.contains (hash_of prims tx) t ≡ false
      → SortedMap.contains (hash_of prims tx) (SortedMap.add prims tx t) ≡ true
  unfolding SortedMap.contains SortedMap.add has
  added_has tx t new = rw (
    SortedMap.contains,
    SortedMap.add,
    hash_of,
    new,
    has,
    lookup-insert_self (hash_of prims tx) (cached prims tx) t.lookup,
  )

  add-contains :
      (tx : Transaction) (p : TxPool) {p' : TxPool}
      → TxPool.add prims tx p ≡ ok p'
      → TxPool.contains (hash_of prims tx) p' ≡ true
  unfolding TxPool.add TxPool.contains
  add-contains tx p {p'} added = elim (Result-cases (prune prims p)) [
    | inr (inl (e, bad)) ↦ cc (rw (TxPool.add, bad) at added)
    | inr (inr (e, bad)) ↦ cc (rw (TxPool.add, bad) at added)
    | inl (room, fine) ↦ elim (Bool-cases (SortedMap.contains (hash_of prims tx) room.all)) [
      | inl known ↦ rw (← ok_inj (rw (TxPool.add, fine, known) at added)) known
      | inr new ↦ rw (← ok_inj (rw (TxPool.add, fine, new) at added)) (added_has tx room.all new)
    ]
  ]

module _ {T C N Tr : Type 0} (env : Env T C N Tr) where
  refused_lem :
      (fuel : ℕ) (from : NetAddr) (b : Block) (s : Server T C N Tr) {e : Error}
      → check_link env.storage env.engine env.prims b s.chain ≡ err e
      → process_block env fuel from b s ≡ some (block_refused env from e s)
  unfolding process_block add_block validate_block
  refused_lem fuel from b s {e} refused =
      let verdict : validate_block env.storage env.engine env.prims b s.chain ≡ (s.chain, err e) =
        rw (validate_block, refused) in
      let kept = ap (λ (q : Blockchain T C × Result (Unit {0})). q.0) verdict in
      let failed : (validate_block env.storage env.engine env.prims b s.chain).1 ≡ err e =
        ap (λ (q : Blockchain T C × Result (Unit {0})). q.1) verdict in
      rw (process_block, add_block, failed)
        (λ i. some (block_refused env from e (record s { chain = kept i })))

  -- A node whose chain is in order drops a block at a height that it has, without an error and without
  -- a change. A block more than one above its height makes it ask the sender for the blocks above that
  -- height, with no other change.
  pub process_block_misfit :
      (fuel : ℕ) (from : NetAddr) (b : Block) (s : Server T C N Tr)
      → IsChain env.storage env.engine env.prims s.chain
      → b.header.height ≢ height s.chain + 1
      → process_block env fuel from b s
        ≡ some (
            if leb b.header.height (height s.chain)
            then (s, ok tt)
            else request_blocks_sync env from s)
  unfolding check_link has_block block_refused
  process_block_misfit fuel from b s chain misfit =
      let len = height-length env.storage env.engine env.prims s.chain chain in
      elim (Bool-cases (leb b.header.height (height s.chain))) [
        | inl old ↦
            refused_lem fuel from b s {e = already_contains} (rw (check_link, has_block, old))
            ∙ rw (old)
        | inr high ↦
            let other : (b.header.height == (height s.chain + 1) % 2 ^ 32) ≡ false =
              ground (arith, len, chain.short) in
            refused_lem fuel from b s {e = too_high} (rw (check_link, has_block, high, other))
            ∙ rw (high)
      ]

  pub hash_of-set_first_seen :
      (now : ℕ) (t : Transaction)
      → hash_of env.prims (set_first_seen now (cached env.prims t)) ≡ hash_of env.prims t
  unfolding set_first_seen tx_hash tx_hasher
  hash_of-set_first_seen now t = ground arith

  tx_verify-seen :
      (now : ℕ) (t : Transaction)
      → tx_verify env.prims (set_first_seen now (cached env.prims t)) ≡ tx_verify env.prims t
  unfolding set_first_seen tx_hash tx_verify
  tx_verify-seen now t = ground arith

  -- The pool has a transaction that `ProcessTransaction` has been given and that verifies.
  pub process_transaction-contains :
      (now : ℕ) (t : Transaction) (s : Server T C N Tr)
      → IsPool env.prims s.mem_pool
      → tx_verify env.prims (cached env.prims t) ≡ ok tt
      → TxPool.contains (hash_of env.prims t) (process_transaction env now t s).0.mem_pool ≡ true
  unfolding process_transaction broadcast_tx
  process_transaction-contains now t s pool good =
      elim (Bool-cases (TxPool.contains (hash_of env.prims t) s.mem_pool)) [
        | inl known ↦ rw (process_transaction, known) known
        | inr new ↦
            let seen = set_first_seen now (cached env.prims t) in
            let (p', added, _, _, _) = add-refines env.prims seen s.mem_pool pool in
            let there : TxPool.contains (hash_of env.prims t) p' ≡ true =
              ap (λ h. TxPool.contains h p') (sym (hash_of-set_first_seen now t))
              ∙ add-contains env.prims seen s.mem_pool added in
            rw (process_transaction, new, good, added) there
      ]

  pub tx_verify-cached :
      (t : Transaction) → tx_verify env.prims (cached env.prims t) ≡ tx_verify env.prims t
  unfolding tx_hash tx_verify
  tx_verify-cached t = ground arith

  pub process_transaction-ok :
      (now : ℕ) (t : Transaction) (s : Server T C N Tr)
      → IsPool env.prims s.mem_pool
      → tx_verify env.prims (cached env.prims t) ≡ ok tt
      → (process_transaction env now t s).1 ≡ ok tt
  unfolding process_transaction broadcast_tx
  process_transaction-ok now t s pool good =
      elim (Bool-cases (TxPool.contains (hash_of env.prims t) s.mem_pool)) [
        | inl known ↦ rw (process_transaction, known)
        | inr new ↦
            let (p', added, _, _, _) =
              add-refines env.prims (set_first_seen now (cached env.prims t)) s.mem_pool pool in
            rw (process_transaction, new, good, added)
      ]

  process_transaction_known :
      (now : ℕ) (t : Transaction) (s : Server T C N Tr)
      → TxPool.contains (hash_of env.prims t) s.mem_pool ≡ true
      → process_transaction env now t s ≡ (s, ok tt)
  unfolding process_transaction
  process_transaction_known now t s known = rw (process_transaction, known)

  pub hash_of_fresh :
      (t : Transaction) → is_zero t.hash ≡ true → hash_of env.prims t ≡ tx_hasher env.prims t
  unfolding tx_hash
  hash_of_fresh t fresh = ground arith

  -- Two transactions of one payload, neither of which has its hash cached, are one to the pool, whatever
  -- their recipients, values, nonces and gas: once the first verifies and is taken, the second is
  -- dropped without an error and without a change.
  pub process_transaction_same_payload :
      (now later : ℕ) (t t' : Transaction) (s : Server T C N Tr)
      → IsPool env.prims s.mem_pool
      → t.payload ≡ t'.payload
      → is_zero t.hash ≡ true
      → is_zero t'.hash ≡ true
      → tx_verify env.prims t ≡ ok tt
      → let s' = (process_transaction env now t s).0 in
        process_transaction env later t' s' ≡ (s', ok tt)
  unfolding tx_hasher tx_hash tx_verify
  process_transaction_same_payload now later t t' s pool same fresh fresh' good =
      let s' = (process_transaction env now t s).0 in
      let one : hash_of env.prims t ≡ hash_of env.prims t' =
        hash_of_fresh t fresh
        ∙ (λ i. env.prims.host.sha256 (same i))
        ∙ sym (hash_of_fresh t' fresh') in
      let there = process_transaction-contains now t s pool (ground (arith, good)) in
      process_transaction_known later t' s'
        (ap (λ h. TxPool.contains h s'.mem_pool) (sym one) ∙ there)
