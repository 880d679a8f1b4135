-- ===== src/Program/Servers.antt =====
-- main.go: the servers that the program starts, on whatever store.
use blockz.Prelude.{
  ℕ, zero, suc, ◌%◌, ◌^◌, ◌+◌, ◌≡◌, ◌≢◌, false, sym, ap, ◌∙◌, Bool, List, [], ◌∷◌, ◌++◌, Option,
  none, some, Option-cases, some_inj, inl, inr, if◌then◌else◌,
}
use blockz.Result.{Result, ok, Result-cases, bind_inv, ok_inj}
use blockz.Types.{Bytes, Address}
use blockz.Core.WorldState.{new_world_state, get_balance}
use blockz.Core.Data.{PrivateKey, Block, Primitives}
use blockz.Core.Consensus.{ConsensusEngine}
use blockz.Core.Storage.{Storage}
use blockz.Core.Blockchain.{Blockchain, set_consensus}
use blockz.Core.Blockchain.Steps.{add_block_without_validation-inv}
use blockz.Core.Blockchain.Start.{load_from, empty_chain, new_blockchain}
use blockz.Network.Message.{NetAddr}
use blockz.Network.Server.{Env, Server}
use blockz.Network.Server.Creation.{new_server, genesis_block}
use blockz.Program.Seeds.{join, any_has_byte}
use blockz.Program.Flags.{seed_nodes-join}
use blockz.Program.{must_create_server, production_server, seed_nodes}

module _ {T C : Type 0} (store : Storage T) (engine : ConsensusEngine C) (prims : Primitives) where
  load_from_world :
      (rounds i : ℕ) (bc : Blockchain T C) {p : Blockchain T C × Result (Unit {0})}
      → load_from store engine prims rounds i bc ≡ some p
      → p.0.world_state ≡ bc.world_state
  unfolding load_from
  load_from_world zero i bc done = absurd (cc done)
  load_from_world (suc rounds) i bc {p} done = elim (Result-cases (store.get bc.store i)) [
    | inl (b, found) ↦
        load_from_world rounds ((i + 1) % 2 ^ 32)
          (record bc { headers = bc.headers ++ b.header ∷ [] }) {p = p}
          (rw (load_from, found) at done)
    | inr (inl (e, bad)) ↦ ap (λ q. q.0.world_state) (sym (some_inj (rw (load_from, bad) at done)))
    | inr (inr (e, bad)) ↦ ap (λ q. q.0.world_state) (sym (some_inj (rw (load_from, bad) at done)))
  ]

  new_blockchain_world :
      (rounds : ℕ) (genesis : Block) (t : T) {bc : Blockchain T C}
      → new_blockchain store engine prims rounds genesis t ≡ some (bc, ok tt)
      → bc.world_state ≡ new_world_state
  unfolding new_blockchain empty_chain
  new_blockchain_world rounds genesis t {bc} done = elim (Result-cases (store.get t 0)) [
    | inl (b, found) ↦
        load_from_world rounds 0 (empty_chain store engine prims t) {p = (bc, ok tt)}
          (rw (new_blockchain, found) at done)
    | inr (inl (e, bad)) ↦
        let (_, world, _) =
          add_block_without_validation-inv store engine prims genesis
            (empty_chain store engine prims t) {bc' = bc}
            (some_inj (rw (new_blockchain, bad) at done)) in
        world
    | inr (inr (e, bad)) ↦ absurd (cc (some_inj (rw (new_blockchain, bad) at done)))
  ]

module _ {T C N Tr : Type 0} (env : Env T C N Tr) where
  -- What `NewServer` has put together, where it was given an engine
  new_server-inv :
      (rounds : ℕ) (id : Bytes) (seeds : List NetAddr) (transports : List Tr)
      (key : Option PrivateKey) (engine : C) (t : T) (n : N) {s : Server T C N Tr}
      → new_server env rounds id seeds transports key (some engine) t n ≡ some (ok s)
      → (s.chain.world_state ≡ new_world_state)
        × (s.chain.consensus ≡ some engine)
        × (s.private_key ≡ key)
        × (s.seed_nodes ≡ seeds)
        × (s.transports ≡ transports)
  unfolding new_server set_consensus
  new_server-inv rounds id seeds transports key engine t n {s} done =
      elim (Option-cases (new_blockchain env.storage env.engine env.prims rounds genesis_block t)) [
        | inl on ↦ absurd (cc (rw (new_server, on) at done))
        | inr (p, made) ↦
            let (u, fine, same) =
              bind_inv p.1 _ {b = s} (some_inj (rw (new_server, made) at done)) in
            let path = sym (ok_inj same) in
            let world =
              new_blockchain_world env.storage env.engine env.prims rounds genesis_block t
                {bc = p.0} (made ∙ ap (λ r. some (p.0, r)) fine) in
            (
              (λ i. (path i).chain.world_state) ∙ world,
              λ i. (path i).chain.consensus,
              λ i. (path i).private_key,
              λ i. (path i).seed_nodes,
              λ i. (path i).transports,
            )
      ]

  -- On whatever store, a server of the developer mode that could be made starts without a balance: every
  -- address has 0, also those of the genesis allocations. It has the given engine, key and transport,
  -- and no seeds.
  pub must_create_server_lem :
      (rounds : ℕ) (id : Bytes) (tr : Tr) (key : Option PrivateKey) (engine : C) (t : T) (n : N)
      (a : Address) {s : Server T C N Tr}
      → must_create_server env rounds id tr key engine t n ≡ some (ok s)
      → (get_balance s.chain.world_state a ≡ 0)
        × (s.chain.consensus ≡ some engine)
        × (s.private_key ≡ key)
        × (s.seed_nodes ≡ [])
        × (s.transports ≡ tr ∷ [])
  unfolding must_create_server get_balance
  must_create_server_lem rounds id tr key engine t n a {s} done =
      let (world, engine_set, key_set, seeds_set, over) =
        new_server-inv rounds id [] (tr ∷ []) key engine t n done in
      (ap (λ ws. get_balance ws a) world, engine_set, key_set, seeds_set, over)

  -- A server of the production mode that could be made starts without a balance as well. Its seeds are the
  -- addresses that the flag was joined from with commas, where none has a comma and they are not the
  -- empty address alone, and it has a key exactly when it mines.
  pub production_server_lem :
      (rounds : ℕ) (id : Bytes) (mine : Bool) (seeds : List Bytes) (key : PrivateKey) (engine : C)
      (tr : Tr) (t : T) (n : N) (a : Address) {s : Server T C N Tr}
      → any_has_byte 44 seeds ≡ false
      → seeds ≢ [] ∷ []
      → production_server env rounds id mine (join 44 seeds) key engine tr t n ≡ some (ok s)
      → (get_balance s.chain.world_state a ≡ 0)
        × (s.seed_nodes ≡ seeds)
        × (s.private_key ≡ (if mine then some key else none))
  unfolding production_server get_balance
  production_server_lem rounds id mine seeds key engine tr t n a {s} clean several done =
      let (world, _, key_set, seeds_set, _) =
        new_server-inv rounds id (seed_nodes (join 44 seeds)) (tr ∷ [])
          (if mine then some key else none) engine t n done in
      (ap (λ ws. get_balance ws a) world, seeds_set ∙ seed_nodes-join seeds clean several, key_set)
