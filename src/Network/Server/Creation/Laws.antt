-- ===== src/Network/Server/Creation/Laws.antt =====
-- network/server.go: the block that a validator builds is one that the chain accepts.
use blockz.Prelude.{ℕ, Bool, ◌≡◌, ap, ◌∙◌, some, bytes_eq, true}
use blockz.Result.{Result, ok, ◌>>=◌, bind_inv, ok_inj}
use blockz.Types.{Bytes, Address}
use blockz.Core.Data.{PrivateKey, Signature, Header, Block, Primitives}
use blockz.Core.Transaction.{key_address}
use blockz.Core.Block.{new_block_from_prev_header, block_sign}
use blockz.Core.Consensus.{ConsensusEngine}
use blockz.Core.Blockchain.{height, get_header}
use blockz.Consensus.Pow.{PowEngine, pow_engine, prepare}
use blockz.Consensus.Pow.Mining.{seal-verify_header}
use blockz.Network.TxPool.{pending}
use blockz.Network.Server.{Env, Server}
use blockz.Network.Server.Creation.{
  prepare_header, set_coinbase, seal_header, sign_block, build_block,
}

-- The header of a block but for what the engine and the coinbase change.
pub record SameBlock (h h' : Header) : Type 0 where
  pub same_height : h'.height ≡ h.height
  pub same_prev : h'.prev_block_hash ≡ h.prev_block_hash
  pub same_data : h'.data_hash ≡ h.data_hash

-- What `Prepare` and `Seal` of an engine do for a header whose coinbase is set between them: the engine
-- accepts it, and the rest of it stays.
abbrev pub Seals : {C : Type 0} → ConsensusEngine C → C → Type 0
Seals engine c =
    (h h₁ h₂ : Header) (coinbase : Address)
    → engine.prepare c h ≡ ok h₁
    → engine.seal c (record h₁ { coinbase = coinbase }) ≡ (h₂, ok tt)
    → ((engine.verify_header c h₂).1 ≡ ok tt) × SameBlock h h₂

-- The engine of consensus/pow.go does so.
pub pow_engine-Seals :
    (prims : Primitives) (timed_out : ℕ → Bool) (e : PowEngine)
    → Seals (pow_engine prims timed_out) e
unfolding pow_engine prepare
pow_engine-Seals prims timed_out e h h₁ h₂ coinbase prepared sealed =
    let start : prepare e (record h { coinbase = coinbase })
        ≡ ok (record h₁ { coinbase = coinbase }) =
      ap (λ (r : Result Header). r >>= λ g. ok (record g { coinbase = coinbase })) prepared in
    let (accepted, _, _, m, _, same, _) =
      seal-verify_header prims timed_out e (record h { coinbase = coinbase })
        {h₁ = record h₁ { coinbase = coinbase }} {h₂ = h₂} start sealed in
    (
      accepted,
      record {
        same_height = λ i. (same i).height;
        same_prev = λ i. (same i).prev_block_hash;
        same_data = λ i. (same i).data_hash;
      },
    )

-- A signature that was made with a key is verified with the point of that key.
abbrev pub SignsWell : Primitives → Type 0
SignsWell prims =
    (k : PrivateKey) (message : Bytes) (sig : Signature)
    → prims.ecdsa_sign k message ≡ ok sig
    → prims.ecdsa_verify (some k.point) message sig.r sig.s ≡ ok true

module _ {T C N Tr : Type 0} (env : Env T C N Tr) where
  -- The parts of `createNewBlock`, for a node that has an engine and a key
  pub record Built (now : ℕ) (s : Server T C N Tr) (c : C) (k : PrivateKey) (b : Block)
      : Type 0 where
    pub current : Header
    pub on_top : get_header (height s.chain) s.chain ≡ ok current
    pub fresh : Block
    pub made : new_block_from_prev_header env.prims now current (pending s.mem_pool) ≡ ok fresh
    pub prepared : Header
    pub prepares : env.engine.prepare c fresh.header ≡ ok prepared
    pub addr : Address
    pub is_address : key_address env.prims (record { key = some k.point }) ≡ ok addr
    pub sealed : Header
    pub seals : env.engine.seal c (record prepared { coinbase = addr }) ≡ (sealed, ok tt)
    pub signs : block_sign env.prims k (record fresh { header = sealed }) ≡ ok b

  prepare_header-inv :
      (s : Server T C N Tr) (h : Header) {c : C} {h₁ : Header}
      → s.chain.consensus ≡ some c
      → prepare_header env s h ≡ ok h₁
      → env.engine.prepare c h ≡ ok h₁
  unfolding prepare_header
  prepare_header-inv s h engine done = rw (prepare_header, engine) at done

  set_coinbase-inv :
      (s : Server T C N Tr) (h : Header) {k : PrivateKey} {h₂ : Header}
      → s.private_key ≡ some k
      → set_coinbase env s h ≡ ok h₂
      → (addr : Address) × (key_address env.prims (record { key = some k.point }) ≡ ok addr)
        × (record h { coinbase = addr } ≡ h₂)
  unfolding set_coinbase
  set_coinbase-inv s h {k} {h₂} keyed done =
      let (addr, is_address, set) =
        bind_inv (key_address env.prims (record { key = some k.point }))
          (λ a. ok (record h { coinbase = a })) {b = h₂} (rw (set_coinbase, keyed) at done) in
      (addr, is_address, ok_inj set)

  seal_header-inv :
      (s : Server T C N Tr) (h : Header) {c : C} {h₃ : Header}
      → s.chain.consensus ≡ some c
      → seal_header env s h ≡ ok h₃
      → env.engine.seal c h ≡ (h₃, ok tt)
  unfolding seal_header
  seal_header-inv s h {c} {h₃} engine done =
      let p = env.engine.seal c h in
      let (u, fine, same) =
        bind_inv p.1 (λ _. ok p.0) {b = h₃} (rw (seal_header, engine) at done) in
      λ i. (ok_inj same i, fine i)

  sign_block-inv :
      (s : Server T C N Tr) (b : Block) {k : PrivateKey} {b' : Block}
      → s.private_key ≡ some k
      → sign_block env s b ≡ ok b'
      → block_sign env.prims k b ≡ ok b'
  unfolding sign_block
  sign_block-inv s b keyed done = rw (sign_block, keyed) at done

  pub build_block-inv :
      (now : ℕ) (s : Server T C N Tr) {c : C} {k : PrivateKey} {b : Block}
      → s.chain.consensus ≡ some c
      → s.private_key ≡ some k
      → build_block env now s ≡ ok b
      → Built now s c k b
  unfolding build_block
  build_block-inv now s {c} {k} {b} engine keyed built =
      let sign = λ (fresh : Block) (h₃ : Header). sign_block env s (record fresh { header = h₃ }) in
      let seal = λ (fresh : Block) (h₂ : Header). seal_header env s h₂ >>= sign fresh in
      let coin = λ (fresh : Block) (h₁ : Header). set_coinbase env s h₁ >>= seal fresh in
      let prep = λ (fresh : Block). prepare_header env s fresh.header >>= coin fresh in
      let (current, on_top, rest) =
        bind_inv (get_header (height s.chain) s.chain)
          (λ top. new_block_from_prev_header env.prims now top (pending s.mem_pool) >>= prep)
          {b = b} built in
      let (fresh, made, rest₁) =
        bind_inv (new_block_from_prev_header env.prims now current (pending s.mem_pool)) prep
          {b = b} rest in
      let (prepared, prepares, rest₂) =
        bind_inv (prepare_header env s fresh.header) (coin fresh) {b = b} rest₁ in
      let (coined, coins, rest₃) =
        bind_inv (set_coinbase env s prepared) (seal fresh) {b = b} rest₂ in
      let (sealed, seals, signs) = bind_inv (seal_header env s coined) (sign fresh) {b = b} rest₃ in
      let (addr, is_address, same) = set_coinbase-inv s prepared keyed coins in
      record {
        current = current;
        on_top = on_top;
        fresh = fresh;
        made = made;
        prepared = prepared;
        prepares = prepare_header-inv s fresh.header engine prepares;
        addr = addr;
        is_address = is_address;
        sealed = sealed;
        seals = ap (env.engine.seal c) same ∙ seal_header-inv s coined engine seals;
        signs = sign_block-inv s (record fresh { header = sealed }) keyed signs;
      }
