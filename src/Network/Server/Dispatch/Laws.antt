-- ===== src/Network/Server/Dispatch/Laws.antt =====
-- network/server.go: the handlers leave the pool alone, but for that of a transaction.
use blockz.Prelude.{
  ℕ, ◌+◌, ◌%◌, ◌^◌, ◌≡◌, refl, sym, ap, ◌∙◌, List, [], ◌∷◌, some, arith, Option-cases, some_inj,
  inl, inr,
}
use blockz.Result.{Result, Error, ok, err, panic, too_high, attempt, and_then, Result-cases}
use blockz.Core.Data.{Block}
use blockz.Core.Blockchain.{height, add_block}
use blockz.Network.Message.{
  NetAddr, Message, Payload, GetBlocksMessage, StatusMessage, get_blocks, blocks, payload_message,
}
use blockz.Network.Server.{
  Env, Server, find_peer, send, send_payload, process_block, request_blocks_sync, block_refused,
  broadcast_block, broadcast_block,
}
use blockz.Network.Server.Sync.{
  process_status_message, process_get_status_message, process_get_blocks, process_blocks, collect,
  add_blocks, last_wanted,
}
use blockz.Network.Server.Peers.{
  send_over_first, handle_get_peers, handle_share_peers, on_first, discover, add_peer,
}

module _ {T C N Tr : Type 0} (env : Env T C N Tr) where
  -- The outcome of a handler that has not touched the pool
  abbrev pub KeepsPool : Server T C N Tr → Server T C N Tr × Result (Unit {0}) → Type 0
  KeepsPool s p = p.0.mem_pool ≡ s.mem_pool

  send_lem : (to : NetAddr) (m : Message) (s : Server T C N Tr) → KeepsPool s (send env to m s)
  unfolding send
  send_lem to m s = elim (Option-cases (find_peer env to s)) [
    | inl none_there ↦ rw (send, none_there)
    | inr (tr, there) ↦ rw (send, there)
  ]

  attempt_lem :
      {A : Type 0} (s : Server T C N Tr) (r : Result A)
      (f : A → Server T C N Tr × Result (Unit {0}))
      → ((a : A) → KeepsPool s (f a))
      → KeepsPool s (attempt s r f)
  attempt_lem s (ok m) f keeps = keeps m
  attempt_lem s (err e) f keeps = refl
  attempt_lem s (panic p) f keeps = refl

  pub send_payload_lem :
      (to : NetAddr) (p : Payload) (s : Server T C N Tr) → KeepsPool s (send_payload env to p s)
  unfolding send_payload
  send_payload_lem to p s =
      attempt_lem s (payload_message env.wire env.codec p) (λ m. send env to m s)
        (λ m. send_lem to m s)

  pub on_first_lem :
      (f : Tr → N → N × Result (Unit {0})) (s : Server T C N Tr) → KeepsPool s (on_first env f s)
  on_first_lem f s = ground arith

  pub send_over_first_lem :
      (to : NetAddr) (p : Payload) (s : Server T C N Tr) → KeepsPool s (send_over_first env to p s)
  unfolding send_over_first
  send_over_first_lem to p s =
      let over = λ (m : Message) (tr : Tr) (n : N).
        env.transports.send_message tr n to (env.wire.message_bytes m) in
      attempt_lem s (payload_message env.wire env.codec p) (λ m. on_first env (over m) s)
        (λ m. on_first_lem (over m) s)

  request_lem :
      (from : NetAddr) (s : Server T C N Tr) → KeepsPool s (request_blocks_sync env from s)
  unfolding request_blocks_sync
  request_lem from s = send_payload_lem from _ s

  block_refused_lem :
      (from : NetAddr) (e : Error) (s : Server T C N Tr) → KeepsPool s (block_refused env from e s)
  unfolding block_refused
  block_refused_lem from too_high s = request_lem from s
  block_refused_lem from e s = refl

  pub process_block_lem :
      (fuel : ℕ) (from : NetAddr) (b : Block) (s : Server T C N Tr)
      {p : Server T C N Tr × Result (Unit {0})}
      → process_block env fuel from b s ≡ some p
      → KeepsPool s p
  unfolding process_block broadcast_block
  process_block_lem fuel from b s {p} done =
      elim (Option-cases (add_block env.storage env.engine env.prims fuel b s.chain)) [
        | inl on ↦ cc (rw (process_block, on) at done)
        | inr (q, added) ↦ elim (Result-cases q.1) [
          | inl (u, fine) ↦
              ap (λ r. r.0.mem_pool) (sym (some_inj (rw (process_block, added, fine) at done)))
          | inr (inl (e, bad)) ↦
              ap (λ r. r.0.mem_pool) (sym (some_inj (rw (process_block, added, bad) at done)))
              ∙ block_refused_lem from e (record s { chain = q.0 })
          | inr (inr (e, bad)) ↦
              ap (λ r. r.0.mem_pool) (sym (some_inj (rw (process_block, added, bad) at done)))
        ]
      ]

  pub process_status_message_lem :
      (from : NetAddr) (m : StatusMessage) (s : Server T C N Tr)
      → KeepsPool s (process_status_message env from m s)
  unfolding process_status_message
  process_status_message_lem from m s = ground (
    arith,
    send_payload_lem from
        (get_blocks (record { from = (height s.chain + 1) % 2 ^ 32; to = m.height })) s,
  )

  pub process_get_blocks_lem :
      (rounds : ℕ) (from : NetAddr) (m : GetBlocksMessage) (s : Server T C N Tr)
      {p : Server T C N Tr × Result (Unit {0})}
      → process_get_blocks env rounds from m s ≡ some p
      → KeepsPool s p
  unfolding process_get_blocks
  process_get_blocks_lem rounds from m s {p} done =
      elim (Option-cases (collect env rounds m.from (last_wanted env m s.chain) [] s.chain)) [
        | inl on ↦ cc (rw (process_get_blocks, on) at done)
        | inr (r, found) ↦
            ap (λ q. q.0.mem_pool) (sym (some_inj (rw (process_get_blocks, found) at done)))
            ∙ attempt_lem s r (λ bs. send_payload env from (blocks bs) s)
                (λ bs. send_payload_lem from (blocks bs) s)
      ]

  pub process_blocks_lem :
      (fuel : ℕ) (bs : List Block) (s : Server T C N Tr) {p : Server T C N Tr × Result (Unit {0})}
      → process_blocks env fuel bs s ≡ some p
      → KeepsPool s p
  unfolding process_blocks
  process_blocks_lem fuel bs s {p} done = elim (Option-cases (add_blocks env fuel bs s.chain)) [
    | inl on ↦ cc (rw (process_blocks, on) at done)
    | inr (q, added) ↦ ap (λ r. r.0.mem_pool) (sym (some_inj (rw (process_blocks, added) at done)))
  ]

  pub process_get_status_message_lem :
      (from : NetAddr) (s : Server T C N Tr) → KeepsPool s (process_get_status_message env from s)
  unfolding process_get_status_message
  process_get_status_message_lem from s = send_payload_lem from _ s

  pub handle_get_peers_lem :
      (from : NetAddr) (s : Server T C N Tr) → KeepsPool s (handle_get_peers env from s)
  unfolding handle_get_peers
  handle_get_peers_lem from s = send_over_first_lem from _ s

  discover_lem : (a : NetAddr) (s : Server T C N Tr) → KeepsPool s (discover env a s)
  unfolding discover
  discover_lem a s = ground arith

  pub and_then_lem :
      (s : Server T C N Tr) (p : Server T C N Tr × Result (Unit {0}))
      (f : Server T C N Tr → Server T C N Tr × Result (Unit {0}))
      → KeepsPool s p
      → ((s' : Server T C N Tr) → KeepsPool s' (f s'))
      → KeepsPool s (and_then p f)
  and_then_lem s (s', ok u) f first rest = rest s' ∙ first
  and_then_lem s (s', err e) f first rest = first
  and_then_lem s (s', panic q) f first rest = first

  pub handle_share_peers_lem :
      (addrs : List NetAddr) (s : Server T C N Tr) → KeepsPool s (handle_share_peers env addrs s)
  unfolding handle_share_peers
  handle_share_peers_lem [] s = refl
  handle_share_peers_lem (a ∷ addrs) s =
      and_then_lem s (discover env a s) (handle_share_peers env addrs) (discover_lem a s)
        (handle_share_peers_lem addrs)

  pub add_peer_lem :
      (addr : NetAddr) (tr : Tr) (s : Server T C N Tr)
      → (add_peer env addr tr s).mem_pool ≡ s.mem_pool
  unfolding add_peer
  add_peer_lem addr tr s = ground arith
