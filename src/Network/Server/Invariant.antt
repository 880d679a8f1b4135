-- ===== src/Network/Server/Invariant.antt =====
-- network/server.go: what holds of the pool in every state that a node reaches, whatever messages
-- arrive and whenever it makes blocks.
use blockz.Prelude.{
  ℕ, ◌≡◌, refl, ap, ◌∙◌, List, [], ◌∷◌, ◌++◌, arith, Bool-cases, inl, inr, if◌then◌else◌,
}
use blockz.Result.{ok, Result-cases}
use blockz.Core.Data.{Transaction, Primitives}
use blockz.Core.Transaction.{tx_hash, tx_verify, set_first_seen}
use blockz.Core.Block.{verify_transactions}
use blockz.Network.SortedMap.{new_tx_sorted_map, cached, hash_of}
use blockz.Network.SortedMap.Index.{has_hash, new_tx_sorted_map-IsIndex}
use blockz.Network.TxPool
use blockz.Network.TxPool.{TxPool, pending, clear_pending}
use blockz.Network.TxPool.Fifo.{IsPool, add-refines, enqueue, fifo_add, fifo_prune}
use blockz.Network.Server.{Env, Server, process_transaction, broadcast_tx}

module _ (prims : Primitives) where
  -- The pool is well formed, and the transactions that wait all verify.
  pub record IsReady (p : TxPool) : Type 0 where
    pub pool : IsPool prims p
    pub verified : verify_transactions prims (pending p) ≡ ok tt

  verify_transactions-append :
      (txx : List Transaction) (tx : Transaction)
      → verify_transactions prims txx ≡ ok tt
      → tx_verify prims tx ≡ ok tt
      → verify_transactions prims (txx ++ tx ∷ []) ≡ ok tt
  unfolding verify_transactions
  verify_transactions-append [] tx old new = rw (verify_transactions, new)
  verify_transactions-append (t ∷ txx) tx old new = elim (Result-cases (tx_verify prims t)) [
    | inl (u, fine) ↦
        rw (verify_transactions, fine)
          (verify_transactions-append txx tx (rw (verify_transactions, fine) at old) new)
    | inr (inl (e, bad)) ↦ absurd (cc (rw (verify_transactions, bad) at old))
    | inr (inr (e, bad)) ↦ absurd (cc (rw (verify_transactions, bad) at old))
  ]

  tx_verify-cached : (tx : Transaction) → tx_verify prims (cached prims tx) ≡ tx_verify prims tx
  unfolding tx_hash tx_verify
  tx_verify-cached tx = ground arith

  tx_verify-set_first_seen :
      (now : ℕ) (tx : Transaction) → tx_verify prims (set_first_seen now tx) ≡ tx_verify prims tx
  unfolding set_first_seen tx_verify
  tx_verify-set_first_seen now tx = refl

  enqueue-verified :
      (tx : Transaction) (txx : List Transaction)
      → verify_transactions prims txx ≡ ok tt
      → tx_verify prims tx ≡ ok tt
      → verify_transactions prims (enqueue prims tx txx) ≡ ok tt
  unfolding enqueue
  enqueue-verified tx txx old new = elim (Bool-cases (has_hash prims (hash_of prims tx) txx)) [
    | inl there ↦ rw (there) old
    | inr fresh ↦
        rw (fresh)
          (verify_transactions-append txx (cached prims tx) old (tx_verify-cached tx ∙ new))
  ]

  add-IsReady :
      (tx : Transaction) (p : TxPool)
      → IsReady p
      → tx_verify prims tx ≡ ok tt
      → (p' : TxPool) × (TxPool.add prims tx p ≡ ok p')
        × IsReady p'
        × (p'.max_length ≡ p.max_length)
  unfolding fifo_add pending
  add-IsReady tx p ready good =
      let (p', added, pool, same_max, seen) = add-refines prims tx p ready.pool in
      let waits : p'.waiting.txx ≡ (
          if has_hash prims (hash_of prims tx) (fifo_prune prims p.max_length p.all.txx)
          then p.waiting.txx
          else enqueue prims tx p.waiting.txx) =
        λ i. (seen i).waiting in
      (
        p',
        added,
        record {
          pool = pool;
          verified =
              ap (verify_transactions prims) waits
              ∙ ground
                  (arith, ready.verified, enqueue-verified tx p.waiting.txx ready.verified good);
        },
        same_max,
      )

  pub clear_pending-IsReady : (p : TxPool) → IsReady p → IsReady (clear_pending p)
  unfolding clear_pending pending new_tx_sorted_map verify_transactions
  clear_pending-IsReady p ready = record {
    pool = record {
      all_indexed = ready.pool.all_indexed;
      waiting_indexed = new_tx_sorted_map-IsIndex prims;
      positive = ready.pool.positive;
      bounded = ready.pool.bounded;
    };
    verified = refl;
  }

module _ {T C N Tr : Type 0} (env : Env T C N Tr) where
  abbrev pub Ready : Server T C N Tr → Type 0
  Ready s = IsReady env.prims s.mem_pool

  pub kept-Ready : (s s' : Server T C N Tr) → s'.mem_pool ≡ s.mem_pool → Ready s → Ready s'
  kept-Ready s s' same ready = rw (same) ready

  pub process_transaction-Ready :
      (now : ℕ) (t : Transaction) (s : Server T C N Tr)
      → Ready s
      → Ready (process_transaction env now t s).0
        × ((process_transaction env now t s).0.mem_pool.max_length ≡ s.mem_pool.max_length)
  unfolding process_transaction broadcast_tx
  process_transaction-Ready now t s ready =
      elim (Bool-cases (TxPool.contains (hash_of env.prims t) s.mem_pool)) [
        | inl known ↦ rw (process_transaction, known) (ready, refl)
        | inr new ↦ elim (Result-cases (tx_verify env.prims (cached env.prims t))) [
          | inr (inl (e, bad)) ↦ rw (process_transaction, new, bad) (ready, refl)
          | inr (inr (e, bad)) ↦ rw (process_transaction, new, bad) (ready, refl)
          | inl (u, good) ↦
              let seen = set_first_seen now (cached env.prims t) in
              let (p', added, ready', same) =
                add-IsReady env.prims seen s.mem_pool ready
                  (tx_verify-set_first_seen env.prims now (cached env.prims t) ∙ good) in
              rw (process_transaction, new, good, added) (ready', same)
        ]
      ]
