-- ===== src/Network/Server/Inclusion.antt =====
-- network/server.go and network/txpool.go: from a transaction that a node takes to the block that it
-- builds.
use blockz.Prelude.{
  ℕ, ◌≡◌, refl, sym, ap, ◌∙◌, false, List, [], ◌∷◌, ◌++◌, if◌then◌else◌, ◌||◌, bytes_eq, length,
  arith, Bool-cases, inl, inr, some,
}
use blockz.Result.{ok, ok_inj, Result-cases}
use blockz.Types.{Hash}
use blockz.Core.Data.{PrivateKey, Transaction, Block, Primitives}
use blockz.Core.Codec.{sent_tx}
use blockz.Core.Transaction.{tx_hash, tx_verify, set_first_seen}
use blockz.Core.Blockchain.{validate_block}
use blockz.Core.Blockchain.Chain.{IsChain}
use blockz.Network.SortedMap.{cached, hash_of}
use blockz.Network.SortedMap.Index.{has_hash, contains-has_hash}
use blockz.Network.TxPool
use blockz.Network.TxPool.{TxPool, pending}
use blockz.Network.TxPool.Fifo.{IsPool, add-refines, enqueue, fifo_add, fifo_prune}
use blockz.Network.Server.{Env, Server, process_transaction, broadcast_tx}
use blockz.Network.Server.Invariant.{Ready, process_transaction-Ready}
use blockz.Network.Server.Gossip.{hash_of-set_first_seen, tx_verify-cached}
use blockz.Network.Server.Creation.{build_block}
use blockz.Network.Server.Creation.Laws.{Seals, SignsWell}
use blockz.Network.Server.Creation.Valid.{build_block-valid}

module _ (prims : Primitives) where
  has_hash-fifo_prune :
      (h : Hash) (max_length : ℕ) (txx : List Transaction)
      → has_hash prims h txx ≡ false
      → has_hash prims h (fifo_prune prims max_length txx) ≡ false
  unfolding has_hash fifo_prune
  has_hash-fifo_prune h max_length [] miss = ground arith
  has_hash-fifo_prune h max_length (x ∷ txx) miss = ground arith

  -- A transaction that the pool does not know is put with those that wait.
  add-pending :
      (tx : Transaction) (p : TxPool) {p' : TxPool}
      → IsPool prims p
      → TxPool.contains (hash_of prims tx) p ≡ false
      → TxPool.add prims tx p ≡ ok p'
      → pending p' ≡ enqueue prims tx (pending p)
  unfolding pending fifo_add TxPool.contains
  add-pending tx p {p'} pool new added =
      let (p'', added', _, _, seen) = add-refines prims tx p pool in
      let one : p'' ≡ p' = ok_inj (sym added' ∙ added) in
      let missing =
        has_hash-fifo_prune (hash_of prims tx) p.max_length p.all.txx
          (sym (contains-has_hash prims (hash_of prims tx) p.all pool.all_indexed) ∙ new) in
      let waits : pending p' ≡ (
          if has_hash prims (hash_of prims tx) (fifo_prune prims p.max_length p.all.txx)
          then p.waiting.txx
          else enqueue prims tx p.waiting.txx) =
        ap pending (sym one) ∙ (λ i. (seen i).waiting) in
      rw (waits, missing)

  -- What the pool keeps of a transaction has all of it that is sent.
  sent_tx-set_first_seen :
      (now : ℕ) (t : Transaction)
      → sent_tx (cached prims (set_first_seen now (cached prims t))) ≡ sent_tx t
  unfolding set_first_seen tx_hash
  sent_tx-set_first_seen now t = ground arith

module _ {T C N Tr : Type 0} (env : Env T C N Tr) where
  -- What `ProcessTransaction` leaves of a node besides the pool and the network
  pub process_transaction-chain :
      (now : ℕ) (t : Transaction) (s : Server T C N Tr)
      → ((process_transaction env now t s).0.chain ≡ s.chain)
        × ((process_transaction env now t s).0.private_key ≡ s.private_key)
  unfolding process_transaction broadcast_tx
  process_transaction-chain now t s =
      elim (Bool-cases (TxPool.contains (hash_of env.prims t) s.mem_pool)) [
        | inl known ↦ rw (process_transaction, known) (refl, refl)
        | inr new ↦ elim (Result-cases (tx_verify env.prims (cached env.prims t))) [
          | inr (inl (e, bad)) ↦ rw (process_transaction, new, bad) (refl, refl)
          | inr (inr (e, bad)) ↦ rw (process_transaction, new, bad) (refl, refl)
          | inl (u, good) ↦
              elim (Result-cases
                (TxPool.add env.prims (set_first_seen now (cached env.prims t)) s.mem_pool)) [
                  | inl (p, added) ↦ rw (process_transaction, new, good, added) (refl, refl)
                  | inr (inl (e, bad)) ↦ rw (process_transaction, new, good, bad) (refl, refl)
                  | inr (inr (e, bad)) ↦ rw (process_transaction, new, good, bad) (refl, refl)
                ]
        ]
      ]

  kept_tx : ℕ → Transaction → Transaction
  kept_tx now t = cached env.prims (set_first_seen now (cached env.prims t))

  enqueue-kept_tx :
      (now : ℕ) (t : Transaction) (txx : List Transaction)
      → enqueue env.prims (set_first_seen now (cached env.prims t)) txx
        ≡ (if has_hash env.prims (hash_of env.prims t) txx then txx else txx ++ kept_tx now t ∷ [])
  unfolding enqueue kept_tx
  enqueue-kept_tx now t txx =
      ap (λ h. if has_hash env.prims h txx then txx else txx ++ kept_tx now t ∷ [])
        (hash_of-set_first_seen env now t)

  -- A transaction that verifies goes behind those that wait, with all of it that is sent, unless the pool
  -- knows its hash already or one that waits has it.
  pub process_transaction-pending :
      (now : ℕ) (t : Transaction) (s : Server T C N Tr)
      → IsPool env.prims s.mem_pool
      → tx_verify env.prims t ≡ ok tt
      → (tx' : Transaction) × (sent_tx tx' ≡ sent_tx t)
        × (pending (process_transaction env now t s).0.mem_pool ≡ (
            if TxPool.contains (hash_of env.prims t) s.mem_pool
              || has_hash env.prims (hash_of env.prims t) (pending s.mem_pool)
            then pending s.mem_pool
            else pending s.mem_pool ++ tx' ∷ []))
  unfolding process_transaction broadcast_tx kept_tx
  process_transaction-pending now t s pool good =
      let seen = set_first_seen now (cached env.prims t) in
      let whole = sent_tx-set_first_seen env.prims now t in
      elim (Bool-cases (TxPool.contains (hash_of env.prims t) s.mem_pool)) [
        | inl known ↦ (kept_tx now t, whole, rw (process_transaction, known))
        | inr new ↦
            let (p', added, _, _, _) = add-refines env.prims seen s.mem_pool pool in
            let unknown =
              ap (λ h. TxPool.contains h s.mem_pool) (hash_of-set_first_seen env now t) ∙ new in
            let waits =
              add-pending env.prims seen s.mem_pool pool unknown added
              ∙ enqueue-kept_tx now t (pending s.mem_pool) in
            let verified = tx_verify-cached env t ∙ good in
            (kept_tx now t, whole, rw (process_transaction, new, verified, added) waits)
      ]

  -- A transaction that verifies, and whose hash neither the pool of a node knows nor one that waits in
  -- it has, ends the next block that the node builds once it has taken it, where the building succeeds,
  -- behind those that waited. That block passes the validation of the node's chain, at the next height.
  -- The node is in order and is given an engine whose sealed headers it accepts, and a key whose
  -- signatures are verified.
  pub build_block-includes :
      (now later : ℕ) (t : Transaction) (s : Server T C N Tr) {c : C} {k : PrivateKey} {b : Block}
      → Seals env.engine c
      → SignsWell env.prims
      → IsChain env.storage env.engine env.prims s.chain
      → s.chain.consensus ≡ some c
      → s.private_key ≡ some k
      → Ready env s
      → TxPool.contains (hash_of env.prims t) s.mem_pool ≡ false
      → has_hash env.prims (hash_of env.prims t) (pending s.mem_pool) ≡ false
      → tx_verify env.prims t ≡ ok tt
      → build_block env later (process_transaction env now t s).0 ≡ ok b
      → ((tx' : Transaction) × (sent_tx tx' ≡ sent_tx t)
          × (b.transactions ≡ pending s.mem_pool ++ tx' ∷ []))
        × ((validate_block env.storage env.engine env.prims b s.chain).1 ≡ ok tt)
        × (b.header.height ≡ length s.chain.headers)
  build_block-includes now later t s {c} {k} {b} sealing signing chain engine keyed ready new alone
        good built =
      let s' = (process_transaction env now t s).0 in
      let (same, same_key) = process_transaction-chain now t s in
      let (ready', _) = process_transaction-Ready env now t s ready in
      let (valid, txx, next) =
        build_block-valid env later s' {c = c} {k = k} {b = b} sealing signing (rw (same) chain)
          (ap (λ bc. bc.consensus) same ∙ engine) (same_key ∙ keyed) ready'.verified built in
      let (tx', whole, waits) = process_transaction-pending now t s ready.pool good in
      (
        (tx', whole, txx ∙ (rw (new, alone) at waits)),
        ap (λ bc. (validate_block env.storage env.engine env.prims b bc).1) (sym same) ∙ valid,
        next ∙ ap (λ bc. length bc.headers) same,
      )
