-- ===== src/Network/Server/Reachable/Keeps.antt =====
-- network/server.go: the steps of a node keep its pool in order.
use blockz.Prelude.{
  ℕ, ◌≡◌, refl, sym, ap, ◌∙◌, List, Option, some, arith, Option-cases, some_inj, inl, inr,
}
use blockz.Result.{Result, ok, ok_inj, bind_inv, Result-cases}
use blockz.Types.{Bytes}
use blockz.Core.Data.{Transaction, PrivateKey}
use blockz.Core.Block.{verify_transactions}
use blockz.Core.Blockchain.{add_block}
use blockz.Core.Blockchain.Start.{new_blockchain}
use blockz.Network.SortedMap.{new_tx_sorted_map}
use blockz.Network.TxPool.{TxPool, new_tx_pool, pending, clear_pending}
use blockz.Network.TxPool.Fifo.{new_tx_pool-IsPool}
use blockz.Network.Message.{
  NetAddr, Payload, Rpc, tx, block, get_blocks, blocks, status, get_status, get_peers, share_peers,
  default_rpc_decode,
}
use blockz.Network.Server.{Env, Server, process_transaction, broadcast_block}
use blockz.Network.Server.Creation.{
  create_new_block, build_block, new_server, genesis_block, default_tx_pool_max_length,
}
use blockz.Network.Server.Peers.{add_peer}
use blockz.Network.Server.Dispatch.{process_payload, handle_rpc, receive}
use blockz.Network.Server.Dispatch.Laws.{
  process_block_lem, process_status_message_lem, process_get_blocks_lem, process_blocks_lem,
  process_get_status_message_lem, handle_get_peers_lem, handle_share_peers_lem, add_peer_lem,
}
use blockz.Network.Server.Invariant.{
  Ready, kept-Ready, clear_pending-IsReady, process_transaction-Ready,
}

module _ {T C N Tr : Type 0} (env : Env T C N Tr) where
  -- The pool is in order, and has the length that `NewServer` gives it.
  unfoldable pub Inv : Server T C N Tr → Type 0
  Inv s = Ready env s × (s.mem_pool.max_length ≡ default_tx_pool_max_length)

  pub kept-Inv : (s s' : Server T C N Tr) → s'.mem_pool ≡ s.mem_pool → Inv s → Inv s'
  unfolding Inv
  kept-Inv s s' same inv = (kept-Ready env s s' same inv.0, (λ i. (same i).max_length) ∙ inv.1)

  pub process_transaction-Inv :
      (now : ℕ) (t : Transaction) (s : Server T C N Tr)
      → Inv s
      → Inv (process_transaction env now t s).0
  unfolding Inv
  process_transaction-Inv now t s inv =
      let (ready, same) = process_transaction-Ready env now t s inv.0 in (ready, same ∙ inv.1)

  process_payload-Inv :
      (fuel rounds now : ℕ) (from : NetAddr) (p : Payload) (s : Server T C N Tr)
      {q : Server T C N Tr × Result (Unit {0})}
      → Inv s
      → process_payload env fuel rounds now from p s ≡ some q
      → Inv q.0
  unfolding process_payload
  process_payload-Inv fuel rounds now from (tx t) s inv done =
      rw (← some_inj done) (process_transaction-Inv now t s inv)
  process_payload-Inv fuel rounds now from (block b) s {q} inv done =
      kept-Inv s q.0 (process_block_lem env fuel from b s {p = q} done) inv
  process_payload-Inv fuel rounds now from (get_blocks m) s {q} inv done =
      kept-Inv s q.0 (process_get_blocks_lem env rounds from m s {p = q} done) inv
  process_payload-Inv fuel rounds now from (blocks bs) s {q} inv done =
      kept-Inv s q.0 (process_blocks_lem env fuel bs s {p = q} done) inv
  process_payload-Inv fuel rounds now from (status m) s {q} inv done =
      kept-Inv s q.0
        (ap (λ r. r.0.mem_pool) (sym (some_inj done)) ∙ process_status_message_lem env from m s) inv
  process_payload-Inv fuel rounds now from get_status s {q} inv done =
      kept-Inv s q.0
        (ap (λ r. r.0.mem_pool) (sym (some_inj done)) ∙ process_get_status_message_lem env from s)
        inv
  process_payload-Inv fuel rounds now from get_peers s {q} inv done =
      kept-Inv s q.0
        (ap (λ r. r.0.mem_pool) (sym (some_inj done)) ∙ handle_get_peers_lem env from s) inv
  process_payload-Inv fuel rounds now from (share_peers addrs) s {q} inv done =
      kept-Inv s q.0
        (ap (λ r. r.0.mem_pool) (sym (some_inj done)) ∙ handle_share_peers_lem env addrs s) inv

  pub receive-Inv :
      (fuel rounds now : ℕ) (tr : Tr) (rpc : Rpc) (s : Server T C N Tr)
      {q : Server T C N Tr × Result (Unit {0})}
      → Inv s
      → receive env fuel rounds now tr rpc s ≡ some q
      → Inv q.0
  unfolding receive handle_rpc
  receive-Inv fuel rounds now tr rpc s {q} inv done =
      let s₁ = add_peer env rpc.from tr s in
      let inv₁ = kept-Inv s s₁ (add_peer_lem env rpc.from tr s) inv in
      elim (Result-cases (default_rpc_decode env.wire env.codec rpc)) [
        | inl (m, fine) ↦
            process_payload-Inv fuel rounds now m.from m.payload s₁ {q = q} inv₁
              (rw (receive, handle_rpc, fine) at done)
        | inr (inl (e, bad)) ↦
            kept-Inv s₁ q.0
              (ap (λ r. r.0.mem_pool) (sym (some_inj (rw (receive, handle_rpc, bad) at done)))) inv₁
        | inr (inr (e, bad)) ↦
            kept-Inv s₁ q.0
              (ap (λ r. r.0.mem_pool) (sym (some_inj (rw (receive, handle_rpc, bad) at done)))) inv₁
      ]

  clear_pending_max : (p : TxPool) → (clear_pending p).max_length ≡ p.max_length
  unfolding clear_pending
  clear_pending_max p = refl

  pub create_new_block-Inv :
      (fuel now : ℕ) (s : Server T C N Tr) {q : Server T C N Tr × Result (Unit {0})}
      → Inv s
      → create_new_block env fuel now s ≡ some q
      → Inv q.0
  unfolding create_new_block broadcast_block Inv
  create_new_block-Inv fuel now s {q} inv done = elim (Result-cases (build_block env now s)) [
    | inr (inl (e, bad)) ↦
        kept-Inv s q.0
          (ap (λ r. r.0.mem_pool) (sym (some_inj (rw (create_new_block, bad) at done)))) inv
    | inr (inr (e, bad)) ↦
        kept-Inv s q.0
          (ap (λ r. r.0.mem_pool) (sym (some_inj (rw (create_new_block, bad) at done)))) inv
    | inl (b, built) ↦
        elim (Option-cases (add_block env.storage env.engine env.prims fuel b s.chain)) [
          | inl on ↦ absurd (cc (rw (create_new_block, built, on) at done))
          | inr (p, added) ↦ elim (Result-cases p.1) [
            | inr (inl (e, bad)) ↦
                kept-Inv s q.0
                  (ap (λ r. r.0.mem_pool)
                    (sym (some_inj (rw (create_new_block, built, added, bad) at done))))
                  inv
            | inr (inr (e, bad)) ↦
                kept-Inv s q.0
                  (ap (λ r. r.0.mem_pool)
                    (sym (some_inj (rw (create_new_block, built, added, bad) at done))))
                  inv
            | inl (u, fine) ↦
                let pool : q.0.mem_pool ≡ clear_pending s.mem_pool =
                  ap (λ r. r.0.mem_pool)
                    (sym (some_inj (rw (create_new_block, built, added, fine) at done))) in
                rw (pool) (
                  clear_pending-IsReady env.prims s.mem_pool inv.0,
                  clear_pending_max s.mem_pool ∙ inv.1,
                )
          ]
        ]
  ]

  pub new_server-Inv :
      (rounds : ℕ) (id : Bytes) (seeds : List NetAddr) (transports : List Tr)
      (key : Option PrivateKey) (consensus : Option C) (t : T) (n : N) {s : Server T C N Tr}
      → new_server env rounds id seeds transports key consensus t n ≡ some (ok s)
      → Inv s
  unfolding new_server new_tx_pool pending new_tx_sorted_map verify_transactions Inv
  new_server-Inv rounds id seeds transports key consensus t n {s} done =
      elim (Option-cases (new_blockchain env.storage env.engine env.prims rounds genesis_block t)) [
        | inl on ↦ cc (rw (new_server, on) at done)
        | inr (p, made) ↦
            let (u, _, same) = bind_inv p.1 _ {b = s} (some_inj (rw (new_server, made) at done)) in
            let pool : s.mem_pool ≡ new_tx_pool default_tx_pool_max_length =
              λ i. (sym (ok_inj same) i).mem_pool in
            rw (pool) (
              record {
                pool = new_tx_pool-IsPool env.prims default_tx_pool_max_length (omega arith);
                verified = refl;
              },
              refl,
            )
      ]
