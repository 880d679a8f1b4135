-- ===== src/Network/Server/Peers/Discovery.antt =====
-- network/server.go: the search for peers leaves the pool alone.
use blockz.Prelude.{refl, List, [], ◌∷◌, arith}
use blockz.Result.{Result, ok, err, panic, and_then}
use blockz.Network.Message.{NetAddr, get_status, get_peers}
use blockz.Network.NetAddr.{resolve}
use blockz.Network.Server.{Env, Server}
use blockz.Network.Server.Peers.{
  dropping, connect_seed, send_get_status, send_get_peers, bootstrap_seed, bootstrap_all, bootstrap,
}
use blockz.Network.Server.Dispatch.Laws.{
  KeepsPool, send_payload_lem, send_over_first_lem, on_first_lem, and_then_lem,
}

module _ {T C N Tr : Type 0} (env : Env T C N Tr) where
  dropping_lem :
      (s : Server T C N Tr) (p : Server T C N Tr × Result (Unit {0}))
      → KeepsPool env s p
      → KeepsPool env s (dropping env p)
  dropping_lem s (s', ok u) kept = kept
  dropping_lem s (s', err e) kept = kept
  dropping_lem s (s', panic q) kept = kept

  connect_seed_lem : (a : NetAddr) (s : Server T C N Tr) → KeepsPool env s (connect_seed env a s)
  unfolding connect_seed
  connect_seed_lem a s =
      let kept = on_first_lem env (λ tr n. env.transports.connect tr n a) s in ground (arith, kept)

  bootstrap_seed_lem :
      (a : NetAddr) (s : Server T C N Tr) → KeepsPool env s (bootstrap_seed env a s)
  unfolding bootstrap_seed send_get_status send_get_peers
  bootstrap_seed_lem a s =
      let ask = λ (s' : Server T C N Tr).
        and_then (dropping env (send_get_status env (resolve a) s'))
          (send_get_peers env (resolve a)) in
      dropping_lem s (and_then (connect_seed env a s) ask) (
        and_then_lem env s (connect_seed env a s) ask (connect_seed_lem a s) λ s'.
          and_then_lem env s' (dropping env (send_get_status env (resolve a) s'))
            (send_get_peers env (resolve a))
            (dropping_lem s' (send_get_status env (resolve a) s')
              (send_payload_lem env (resolve a) get_status s'))
            (λ s''. send_over_first_lem env (resolve a) get_peers s''))

  bootstrap_all_lem :
      (seeds : List NetAddr) (s : Server T C N Tr) → KeepsPool env s (bootstrap_all env seeds s)
  unfolding bootstrap_all
  bootstrap_all_lem [] s = refl
  bootstrap_all_lem (a ∷ seeds) s =
      and_then_lem env s (bootstrap_seed env a s) (bootstrap_all env seeds) (bootstrap_seed_lem a s)
        (bootstrap_all_lem seeds)

  pub bootstrap_lem : (s : Server T C N Tr) → KeepsPool env s (bootstrap env s)
  unfolding bootstrap
  bootstrap_lem s = bootstrap_all_lem s.seed_nodes s
