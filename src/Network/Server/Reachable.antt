-- ===== src/Network/Server/Reachable.antt =====
-- network/server.go: the states that a node reaches. Messages arrive over the transports, a client
-- submits transactions, the validator's loop makes blocks, and the node searches for peers, in any
-- order, each after the one before has ended. `Add` of the pool holds no lock; calls of it that overlap
-- are not steps here.
pub mod Keeps
use blockz.Prelude.{ℕ, ◌≤◌, ◌≡◌, sym, ap, ◌∙◌, List, Option, some, arith}
use blockz.Result.{Result, ok}
use blockz.Types.{Bytes}
use blockz.Core.Data.{Transaction, PrivateKey}
use blockz.Core.Block.{verify_transactions}
use blockz.Network.SortedMap.{count}
use blockz.Network.SortedMap.Index.{count-length}
use blockz.Network.TxPool.{pending}
use blockz.Network.TxPool.Fifo.{IsPool}
use blockz.Network.Message.{NetAddr, Rpc}
use blockz.Network.Server.{Env, Server, process_transaction}
use blockz.Network.Server.Creation.{create_new_block, new_server}
use blockz.Network.Server.Dispatch.{receive}
use blockz.Network.Server.Reachable.Keeps.{
  Inv, kept-Inv, process_transaction-Inv, receive-Inv, create_new_block-Inv, new_server-Inv,
}
use blockz.Network.Server.Peers.{bootstrap}
use blockz.Network.Server.Peers.Discovery.{bootstrap_lem}

module _ {T C N Tr : Type 0} (env : Env T C N Tr) where
  -- A step of a node; what the step reports is logged at most.
  pub data Step : Server T C N Tr → Server T C N Tr → Type 0 where
    arrives :
        (fuel rounds now : ℕ) (tr : Tr) (rpc : Rpc) (s s' : Server T C N Tr) (r : Result (Unit {0}))
        → receive env fuel rounds now tr rpc s ≡ some (s', r)
        → Step s s'
    submits :
        (now : ℕ) (t : Transaction) (s s' : Server T C N Tr) (r : Result (Unit {0}))
        → process_transaction env now t s ≡ (s', r)
        → Step s s'
    creates :
        (fuel now : ℕ) (s s' : Server T C N Tr) (r : Result (Unit {0}))
        → create_new_block env fuel now s ≡ some (s', r)
        → Step s s'
    searches :
        (s s' : Server T C N Tr) (r : Result (Unit {0})) → bootstrap env s ≡ (s', r) → Step s s'

  pub data Reach (s : Server T C N Tr) : Server T C N Tr → Type 0 where
    here : Reach s s
    next : {t u : Server T C N Tr} → Reach s t → Step t u → Reach s u

  Step-Inv : {s t : Server T C N Tr} → Step s t → Inv env s → Inv env t
  Step-Inv (arrives fuel rounds now tr rpc s s' r done) inv =
      receive-Inv env fuel rounds now tr rpc s {q = (s', r)} inv done
  Step-Inv (submits now t s s' r done) inv = rw (done) at (process_transaction-Inv env now t s inv)
  Step-Inv (creates fuel now s s' r done) inv =
      create_new_block-Inv env fuel now s {q = (s', r)} inv done
  Step-Inv (searches s s' r done) inv =
      kept-Inv env s s' (ap (λ p. p.0.mem_pool) (sym done) ∙ bootstrap_lem env s) inv

  Reach-Inv : {s t : Server T C N Tr} → Inv env s → Reach s t → Inv env t
  Reach-Inv inv here = inv
  Reach-Inv inv (next path step) = Step-Inv step (Reach-Inv inv path)

  -- As long as no two handlers overlap: in every state that a node reaches after `NewServer`, through any
  -- messages, any transactions that are submitted, any attempts to make a block and any searches for
  -- peers, one after another, the pool is in order. It knows at most 10000 transactions, and each
  -- transaction that waits for a block verifies.
  pub Reach-IsPool :
      (rounds : ℕ) (id : Bytes) (seeds : List NetAddr) (transports : List Tr)
      (key : Option PrivateKey) (consensus : Option C) (t : T) (n : N) {s s' : Server T C N Tr}
      → new_server env rounds id seeds transports key consensus t n ≡ some (ok s)
      → Reach s s'
      → IsPool env.prims s'.mem_pool
        × (count s'.mem_pool.all ≤ 10000)
        × (verify_transactions env.prims (pending s'.mem_pool) ≡ ok tt)
  unfolding Inv
  Reach-IsPool rounds id seeds transports key consensus t n {s} {s'} made path =
      let inv =
        Reach-Inv (new_server-Inv env rounds id seeds transports key consensus t n made) path in
      let pool = inv.0.pool in
      (
        pool,
        omega (arith, inv.1, pool.bounded, count-length env.prims s'.mem_pool.all pool.all_indexed),
        inv.0.verified,
      )
