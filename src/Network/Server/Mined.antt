-- ===== src/Network/Server/Mined.antt =====
-- network/server.go: a round of the validator's loop that succeeds, and what it leaves.
use blockz.Prelude.{
  ℕ, ◌+◌, ◌<◌, ◌^◌, ◌≡◌, sym, ap, ◌∙◌, true, false, [], ◌∷◌, ◌++◌, some, Option-cases, some_inj,
  inl, inr, length, ◌==◌, arith, bytes_eq,
}
use blockz.Result.{ok, Result-cases}
use blockz.Core.Data.{PrivateKey, Transaction, Block}
use blockz.Core.Codec.{sent_tx}
use blockz.Core.Transaction.{tx_verify}
use blockz.Core.Blockchain.{add_block}
use blockz.Core.Blockchain.Chain.{IsChain, add_block-IsChain}
use blockz.Core.Blockchain.Steps.{add_block-inv}
use blockz.Network.SortedMap.{hash_of, new_tx_sorted_map}
use blockz.Network.SortedMap.Index.{has_hash}
use blockz.Network.TxPool
use blockz.Network.TxPool.{pending, clear_pending}
use blockz.Network.Server.{Env, Server, process_transaction, broadcast_block}
use blockz.Network.Server.Invariant.{Ready}
use blockz.Network.Server.Creation.{build_block, create_new_block}
use blockz.Network.Server.Creation.Laws.{Seals, SignsWell}
use blockz.Network.Server.Inclusion.{process_transaction-chain, build_block-includes}

module _ {T C N Tr : Type 0} (env : Env T C N Tr) where
  record Made (fuel now : ℕ) (s s' : Server T C N Tr) (b : Block) : Type 0 where
    built : build_block env now s ≡ ok b
    added : add_block env.storage env.engine env.prims fuel b s.chain ≡ some (s'.chain, ok tt)
    same_pool : s'.mem_pool ≡ clear_pending s.mem_pool

  create_new_block-inv :
      (fuel now : ℕ) (s : Server T C N Tr) {s' : Server T C N Tr}
      → create_new_block env fuel now s ≡ some (s', ok tt)
      → (b : Block) × Made fuel now s s' b
  unfolding create_new_block broadcast_block
  create_new_block-inv fuel now s {s'} done = elim (Result-cases (build_block env now s)) [
    | inr (inl (e, bad)) ↦ absurd (cc (some_inj (rw (create_new_block, bad) at done)))
    | inr (inr (e, bad)) ↦ absurd (cc (some_inj (rw (create_new_block, bad) at done)))
    | inl (b, built) ↦
        elim (Option-cases (add_block env.storage env.engine env.prims fuel b s.chain)) [
          | inl on ↦ absurd (cc (rw (create_new_block, built, on) at done))
          | inr (p, added) ↦ elim (Result-cases p.1) [
            | inr (inl (e, bad)) ↦
                absurd (cc (some_inj (rw (create_new_block, built, added, bad) at done)))
            | inr (inr (e, bad)) ↦
                absurd (cc (some_inj (rw (create_new_block, built, added, bad) at done)))
            | inl (u, fine) ↦
                let path = sym (some_inj (rw (create_new_block, built, added, fine) at done)) in
                (
                  b,
                  record {
                    built = built;
                    added = added ∙ (λ i. some ((sym path i).0.chain, fine i));
                    same_pool = ap (λ q. q.0.mem_pool) path;
                  },
                )
          ]
        ]
  ]

  stored_at :
      (b : Block) (t : T) (height : ℕ) {t' : T}
      → env.storage.put t b ≡ (t', ok tt)
      → b.header.height ≡ height
      → height < 2 ^ 32
      → env.storage.get t' height ≡ ok (env.storage.kept b)
  stored_at b t height {t'} put same small =
      let at : (b.header.height == height) ≡ true = ground arith in
      env.storage.get-put t t' b put (omega arith) height small ∙ rw (at)

  -- A node takes a transaction that verifies, whose hash its pool does not know and none that waits in
  -- the pool has, and then makes a block with success. Its chain is then the old one and the header of a
  -- block of the transactions that waited and, at the end, the one that it took, with all of it that is
  -- sent. The chain is in order, its store has that block, and no transaction waits any more. The node
  -- was in order, with room for one more header below 2^32, an engine whose sealed headers it accepts,
  -- and a key whose signatures are verified.
  pub create_new_block-includes :
      (fuel now later : ℕ) (t : Transaction) (s : Server T C N Tr) {c : C} {k : PrivateKey}
      {s' : Server T C N Tr}
      → Seals env.engine c
      → SignsWell env.prims
      → IsChain env.storage env.engine env.prims s.chain
      → length s.chain.headers + 1 < 2 ^ 32
      → s.chain.consensus ≡ some c
      → s.private_key ≡ some k
      → Ready env s
      → TxPool.contains (hash_of env.prims t) s.mem_pool ≡ false
      → has_hash env.prims (hash_of env.prims t) (pending s.mem_pool) ≡ false
      → tx_verify env.prims t ≡ ok tt
      → create_new_block env fuel later (process_transaction env now t s).0 ≡ some (s', ok tt)
      → (b : Block) × ((tx' : Transaction) × (sent_tx tx' ≡ sent_tx t)
          × (b.transactions ≡ pending s.mem_pool ++ tx' ∷ []))
        × (s'.chain.headers ≡ s.chain.headers ++ b.header ∷ [])
        × IsChain env.storage env.engine env.prims s'.chain
        × (env.storage.get s'.chain.store (length s.chain.headers) ≡ ok (env.storage.kept b))
        × (pending s'.mem_pool ≡ [])
  unfolding pending clear_pending new_tx_sorted_map
  create_new_block-includes fuel now later t s {c} {k} {s'} sealing signing chain room engine keyed
        ready new alone good made =
      let s₁ = (process_transaction env now t s).0 in
      let (same, same_key) = process_transaction-chain env now t s in
      let (b, parts) = create_new_block-inv fuel later s₁ {s' = s'} made in
      let added : add_block env.storage env.engine env.prims fuel b s.chain
          ≡ some (s'.chain, ok tt) =
        ap (λ bc. add_block env.storage env.engine env.prims fuel b bc) (sym same) ∙ parts.added in
      let (there, _, next) =
        build_block-includes env now later t s {c = c} {k = k} {b = b} sealing signing chain engine
          keyed ready new alone good parts.built in
      let (longer, _, headers) =
        add_block-IsChain env.storage env.engine env.prims fuel b s.chain {bc' = s'.chain} chain
          room added in
      let (_, _, _, _, _, _, put) =
        add_block-inv env.storage env.engine env.prims fuel b s.chain {bc' = s'.chain} added in
      (
        b,
        there,
        headers,
        longer,
        stored_at b s.chain.store (length s.chain.headers) put next (omega arith),
        ap (λ p. p.waiting.txx) parts.same_pool,
      )
