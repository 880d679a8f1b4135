-- ===== src/Network/Server/Creation.antt =====
-- network/server.go: `createNewBlock` of the validator's loop, the genesis block and `NewServer`.
pub mod Laws
pub mod Valid
use blockz.Prelude.{ℕ, List, [], ◌∷◌, Option, none, some}
use blockz.Result.{Result, ok, err, panic, ◌>>=◌, nil_dereference}
use blockz.Types.{Bytes, zero_hash, zero_address}
use blockz.Core.Data.{PrivateKey, Header, Block}
use blockz.Core.Transaction.{key_address}
use blockz.Core.Block.{new_block, new_block_from_prev_header, block_sign}
use blockz.Core.Blockchain.{Blockchain, height, get_header, add_block, set_consensus}
use blockz.Core.Blockchain.Start.{new_blockchain}
use blockz.Network.TxPool.{new_tx_pool, pending, clear_pending}
use blockz.Network.Message.{NetAddr}
use blockz.Network.Server.{Env, Server, broadcast_block}

unfoldable pub genesis_block : Block
unfolding new_block
genesis_block =
    new_block
      (record {
        version = 1;
        data_hash = zero_hash;
        prev_block_hash = zero_hash;
        state_root = zero_hash;
        height = 0;
        timestamp = 0;
        nonce = 0;
        difficulty = 0;
        coinbase = zero_address;
      })
      []

abbrev pub default_tx_pool_max_length : ℕ
default_tx_pool_max_length = 10000

module _ {T C N Tr : Type 0} (env : Env T C N Tr) where
  unfoldable pub prepare_header : Server T C N Tr → Header → Result Header
  prepare_header s h = elim s.chain.consensus [ none ↦ ok h | some c ↦ env.engine.prepare c h ]

  unfoldable pub set_coinbase : Server T C N Tr → Header → Result Header
  set_coinbase s h = elim s.private_key [
    | none ↦ ok h
    | some k ↦ key_address env.prims (record { key = some k.point }) >>= λ addr.
        ok (record h { coinbase = addr })
  ]

  unfoldable pub seal_header : Server T C N Tr → Header → Result Header
  seal_header s h = elim s.chain.consensus [
    | none ↦ ok h
    | some c ↦ let (h', r) = env.engine.seal c h in r >>= λ _. ok h'
  ]

  unfoldable pub sign_block : Server T C N Tr → Block → Result Block
  sign_block s b = elim s.private_key [
    | none ↦ panic nil_dereference
    | some k ↦ block_sign env.prims k b
  ]

  -- The block that `createNewBlock` builds, at a time `now`
  unfoldable pub build_block : ℕ → Server T C N Tr → Result Block
  build_block now s = do
    current ← get_header (height s.chain) s.chain
    b ← new_block_from_prev_header env.prims now current (pending s.mem_pool)
    h₁ ← prepare_header s b.header
    h₂ ← set_coinbase s h₁
    h₃ ← seal_header s h₂
    sign_block s (record b { header = h₃ })

  block_created : Block → Result (Unit {0}) → Server T C N Tr → Server T C N Tr × Result (Unit {0})
  block_created b (ok u) s =
      ((broadcast_block env b (record s { mem_pool = clear_pending s.mem_pool })).0, ok tt)
  block_created b (err e) s = (s, err e)
  block_created b (panic p) s = (s, panic p)

  -- `createNewBlock`
  unfoldable pub create_new_block :
      ℕ → ℕ → Server T C N Tr → Option (Server T C N Tr × Result (Unit {0}))
  unfolding block_created
  create_new_block fuel now s = elim (build_block now s) [
    | err e ↦ some (s, err e)
    | panic p ↦ some (s, panic p)
    | ok b ↦ elim (add_block env.storage env.engine env.prims fuel b s.chain) [
      | none ↦ none
      | some p ↦ some (block_created b p.1 (record s { chain = p.0 }))
    ]
  ]

  -- The engine that `NewServer` gives to the chain, if it was given one
  abbrev with_consensus : Option C → Blockchain T C → Blockchain T C
  with_consensus none bc = bc
  with_consensus (some c) bc = set_consensus c bc

  -- `NewServer`, with the given number of rounds for the blocks of the store
  unfoldable pub new_server :
      ℕ
      → Bytes
      → List NetAddr
      → List Tr
      → Option PrivateKey
      → Option C
      → T
      → N
      → Option (Result (Server T C N Tr))
  new_server rounds id seed_nodes transports private_key consensus t n =
      elim (new_blockchain env.storage env.engine env.prims rounds genesis_block t) [
        | none ↦ none
        | some p ↦ some (
            p.1 >>= λ _. ok (record {
              id = id;
              seed_nodes = seed_nodes;
              transports = transports;
              private_key = private_key;
              mem_pool = new_tx_pool default_tx_pool_max_length;
              chain = with_consensus consensus p.0;
              peers = [];
              net = n;
            }))
      ]
