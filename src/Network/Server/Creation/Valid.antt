-- ===== src/Network/Server/Creation/Valid.antt =====
-- network/server.go: the block that `createNewBlock` builds passes the validation of the chain.
use blockz.Prelude.{
  ℕ, ◌+◌, ◌%◌, ◌^◌, ◌≡◌, sym, ap, ◌∙◌, [], some, length, get_elem?, arith, bytes_eq, true, beq_refl,
  List,
}
use blockz.Result.{ok, bind_inv, ok_inj}
use blockz.Types.{Hash}
use blockz.Core.Data.{PrivateKey, Signature, Transaction, Header, Block, Primitives}
use blockz.Core.Transaction.{signature_verify}
use blockz.Core.Block.{
  block_hasher, calculate_data_hash, new_block, new_block_from_prev_header, block_sign,
  verify_transactions, block_verify,
}
use blockz.Core.Blockchain.{
  Blockchain, height, get_header, check_link, check_consensus, validate_block,
}
use blockz.Core.Blockchain.Links.{HeightsFrom-get}
use blockz.Core.Blockchain.Chain.{IsChain, height-length, check_link_lem}
use blockz.Network.TxPool.{pending}
use blockz.Network.Server.{Env, Server}
use blockz.Network.Server.Creation.{build_block}
use blockz.Network.Server.Creation.Laws.{Seals, SignsWell, build_block-inv}

module _ (prims : Primitives) where
  record Fresh (prev : Header) (txx : List Transaction) (b : Block) : Type 0 where
    data_hash : Hash
    hashed : calculate_data_hash prims txx [] ≡ ok data_hash
    same_data : b.header.data_hash ≡ data_hash
    same_prev : b.header.prev_block_hash ≡ block_hasher prims prev
    same_height : b.header.height ≡ (prev.height + 1) % 2 ^ 32
    same_txx : b.transactions ≡ txx
    same_evidence : b.evidence ≡ []

  new_block_from_prev_header-inv :
      (now : ℕ) (prev : Header) (txx : List Transaction) {b : Block}
      → new_block_from_prev_header prims now prev txx ≡ ok b
      → Fresh prev txx b
  unfolding new_block_from_prev_header new_block
  new_block_from_prev_header-inv now prev txx {b} made =
      let (data_hash, hashed, same) = bind_inv (calculate_data_hash prims txx []) _ {b = b} made in
      let path = ok_inj same in
      record {
        data_hash = data_hash;
        hashed = hashed;
        same_data = λ i. (sym path i).header.data_hash;
        same_prev = λ i. (sym path i).header.prev_block_hash;
        same_height = λ i. (sym path i).header.height;
        same_txx = λ i. (sym path i).transactions;
        same_evidence = λ i. (sym path i).evidence;
      }

  block_verify_signed :
      (k : PrivateKey) (b : Block) (sig : Signature) {data_hash : Hash}
      → verify_transactions prims b.transactions ≡ ok tt
      → calculate_data_hash prims b.transactions b.evidence ≡ ok data_hash
      → b.header.data_hash ≡ data_hash
      → prims.ecdsa_verify (some k.point) (prims.encode_header b.header) sig.r sig.s ≡ ok true
      → block_verify prims
          (record b { validator = record { key = some k.point }; signature = some sig })
        ≡ ok tt
  unfolding block_verify signature_verify
  block_verify_signed k b sig {data_hash} valid hashed same_data good =
      ground (arith, good, valid, hashed, same_data, beq_refl data_hash)

  -- What `Sign` has made of a block is verified.
  block_verify-block_sign :
      (k : PrivateKey) (b : Block) {b' : Block} {data_hash : Hash}
      → SignsWell prims
      → verify_transactions prims b.transactions ≡ ok tt
      → calculate_data_hash prims b.transactions b.evidence ≡ ok data_hash
      → b.header.data_hash ≡ data_hash
      → block_sign prims k b ≡ ok b'
      → (block_verify prims b' ≡ ok tt)
        × (b'.header ≡ b.header)
        × (b'.transactions ≡ b.transactions)
  unfolding block_sign
  block_verify-block_sign k b {b'} {data_hash} signs_well valid hashed same_data signed =
      let (sig, made, same) =
        bind_inv (prims.ecdsa_sign k (prims.encode_header b.header)) _ {b = b'} signed in
      let path = sym (ok_inj same) in
      let good = signs_well k (prims.encode_header b.header) sig made in
      (
        ap (block_verify prims) path ∙ block_verify_signed k b sig valid hashed same_data good,
        λ i. (path i).header,
        λ i. (path i).transactions,
      )

module _ {T C N Tr : Type 0} (env : Env T C N Tr) where
  get_header-inv :
      (h : ℕ) (bc : Blockchain T C) {top : Header}
      → get_header h bc ≡ ok top
      → get_elem? bc.headers h ≡ some top
  unfolding get_header
  get_header-inv h bc {top} done = ground arith

  -- The parts of the validation, where all of them pass
  validate_block_passes :
      (b : Block) (bc : Blockchain T C) {c : C}
      → check_link env.storage env.engine env.prims b bc ≡ ok tt
      → bc.consensus ≡ some c
      → (env.engine.verify_header c b.header).1 ≡ ok tt
      → block_verify env.prims b ≡ ok tt
      → (validate_block env.storage env.engine env.prims b bc).1 ≡ ok tt
  unfolding validate_block check_consensus
  validate_block_passes b bc linked engine accepted verified =
      rw (validate_block, linked, check_consensus, engine, accepted, verified)

  -- A node is given an engine whose sealed headers it accepts, and a key whose signatures are
  -- verified. If its chain is in order and the transactions that wait all verify, then the block that
  -- it builds, where the building succeeds, passes the validation of its chain: it links to the top
  -- header, the engine accepts it, and its signature, its transactions and its data hash are right. It
  -- has the waiting transactions.
  pub build_block-valid :
      (now : ℕ) (s : Server T C N Tr) {c : C} {k : PrivateKey} {b : Block}
      → Seals env.engine c
      → SignsWell env.prims
      → IsChain env.storage env.engine env.prims s.chain
      → s.chain.consensus ≡ some c
      → s.private_key ≡ some k
      → verify_transactions env.prims (pending s.mem_pool) ≡ ok tt
      → build_block env now s ≡ ok b
      → ((validate_block env.storage env.engine env.prims b s.chain).1 ≡ ok tt)
        × (b.transactions ≡ pending s.mem_pool)
        × (b.header.height ≡ length s.chain.headers)
  build_block-valid now s {c} {k} {b} sealing signing chain engine keyed valid done =
      let built = build_block-inv env now s engine keyed done in
      let fresh =
        new_block_from_prev_header-inv env.prims now built.current (pending s.mem_pool)
          built.made in
      let (accepted, same) =
        sealing built.fresh.header built.prepared built.sealed built.addr built.prepares
          built.seals in
      let at_top = get_header-inv (height s.chain) s.chain built.on_top in
      let low = HeightsFrom-get 0 s.chain.headers (height s.chain) chain.heights at_top in
      let len = height-length env.storage env.engine env.prims s.chain chain in
      let hashed : calculate_data_hash env.prims built.fresh.transactions built.fresh.evidence
          ≡ ok fresh.data_hash =
        (λ i. calculate_data_hash env.prims (fresh.same_txx i) (fresh.same_evidence i))
        ∙ fresh.hashed in
      let (verified, header, txx) =
        block_verify-block_sign env.prims k (record built.fresh { header = built.sealed }) signing
          (ap (verify_transactions env.prims) fresh.same_txx ∙ valid) hashed
          (same.same_data ∙ fresh.same_data) built.signs in
      let next : b.header.height ≡ length s.chain.headers =
        (λ i. (header i).height)
        ∙ same.same_height
        ∙ fresh.same_height
        ∙ omega (arith, low, len, chain.short) in
      let link : block_hasher env.prims built.current ≡ b.header.prev_block_hash =
        sym ((λ i. (header i).prev_block_hash) ∙ same.same_prev ∙ fresh.same_prev) in
      (
        validate_block_passes b s.chain
            ((check_link_lem env.storage env.engine env.prims b s.chain chain at_top).1
              (next, link))
            engine (ap (λ h. (env.engine.verify_header c h).1) header ∙ accepted) verified,
        txx ∙ fresh.same_txx,
        next,
      )
