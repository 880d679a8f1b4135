-- ===== src/Core/Blockchain/Chain.antt =====
-- The invariant of the chain, and that `AddBlock` keeps it.
use blockz.Prelude.{
  ℕ, ◌+◌, ◌-◌, ◌^◌, ◌<◌, ◌≡◌, ◌↔◌, ap, ◌∙◌, true, false, List, [], ◌∷◌, ◌++◌, some, length,
  length-append, get_elem?, get_elem?-some, ◌==◌, arith, Bool-cases, inl, inr, bytes_eq,
  bytes_beq_iff,
}
use blockz.Result.{and_then, Result, ok, err, panic, Result-cases}
use blockz.Core.WorldState.Supply.{supply, supply-add_balance}
use blockz.Core.Data.{Header, Block, Primitives}
use blockz.Core.Block.{block_hasher}
use blockz.Core.Consensus.{ConsensusEngine}
use blockz.Core.Storage.{Storage}
use blockz.Core.Blockchain.{
  Blockchain, height, has_block, get_header_locked, check_link, add_block, apply_block,
  validate_block, check_link, add_block_without_validation, settle, and_then,
}
use blockz.Core.Blockchain.Links.{
  HeightsFrom, HeightsFrom-append, AreLinked, AreLinked-append, get_elem?-append_inv,
}
use blockz.Core.Blockchain.Execution.{execute_all-supply, AreBounded, execute_all_returns}
use blockz.Core.Blockchain.Steps.{add_block-inv}

module _ {T C : Type 0} (store : Storage T) (engine : ConsensusEngine C) (prims : Primitives) where
  -- The heights count up from 0, each header is linked to the one below it, and the store has the
  -- block of each.
  pub record IsChain (bc : Blockchain T C) : Type 0 where
    pub started : 0 < length bc.headers
    pub short : length bc.headers < 2 ^ 32
    pub heights : HeightsFrom 0 bc.headers
    pub linked : AreLinked prims bc.headers
    pub stored :
        (i : ℕ) (h : Header)
        → get_elem? bc.headers i ≡ some h
        → (b : Block) × (store.get bc.store i ≡ ok b) × (b.header ≡ h)

  pub height-length : (bc : Blockchain T C) → IsChain bc → height bc + 1 ≡ length bc.headers
  unfolding height
  height-length bc chain = omega (arith, chain.started, chain.short)

  -- On a chain with the header `top` on top, the link of a block is accepted exactly when the block's
  -- height is the number of headers and it names the hash of `top`.
  pub check_link_lem :
      (b : Block) (bc : Blockchain T C) {top : Header}
      → IsChain bc
      → get_elem? bc.headers (height bc) ≡ some top
      → (check_link store engine prims b bc ≡ ok tt) ↔ (
          (b.header.height ≡ length bc.headers)
          × (block_hasher prims top ≡ b.header.prev_block_hash))
  unfolding check_link has_block get_header_locked height
  check_link_lem b bc {top} chain found =
      let len = height-length bc chain in
      let at_top : get_elem? bc.headers (length bc.headers - 1) ≡ some top =
        ap (get_elem? bc.headers) (omega arith) ∙ found in
      (
        λ h. elim (Bool-cases (b.header.height == length bc.headers)) [
          | inl next ↦
              ground (
                arith,
                len,
                at_top,
                bytes_beq_iff (block_hasher prims top) b.header.prev_block_hash,
              )
          | inr other ↦ ground (arith, len)
        ],
        λ h.
            ground
              (arith, len, at_top, bytes_beq_iff (block_hasher prims top) b.header.prev_block_hash),
      )

  -- What `stored` says of a chain, and that it stays so when a block is put at the next height.
  abbrev pub AreStored : T → List Header → Type 0
  AreStored t headers =
      (i : ℕ) (h : Header)
      → get_elem? headers i ≡ some h
      → (b : Block) × (store.get t i ≡ ok b) × (b.header ≡ h)

  pub put-AreStored :
      (t t' : T) (headers : List Header) (b : Block)
      → AreStored t headers
      → b.header.height ≡ length headers
      → length headers < 2 ^ 32
      → store.put t b ≡ (t', ok tt)
      → AreStored t' (headers ++ b.header ∷ [])
  put-AreStored t t' headers b kept next short put i h found =
      elim (get_elem?-append_inv headers b.header i found) [
        | inl (old, before) ↦
            let read = store.get-put t t' b put (omega arith) i (omega arith) in
            let (b', got, same) = kept i h before in
            let other : (b.header.height == i) ≡ false = ground arith in
            (b', rw other at read ∙ got, same)
        | inr (new, same) ↦
            let read = store.get-put t t' b put (omega arith) i (omega arith) in
            let this : (b.header.height == i) ≡ true = ground arith in
            (store.kept b, rw this at read, store.kept_header b ∙ same)
      ]

  -- A successful `AddBlock` on a chain with room for one more below 2^32 headers gives a chain,
  -- one higher: its headers are the old ones and that of the block, the heights count up from 0,
  -- each header is linked to the one below it, and the store has the block of each.
  pub add_block-IsChain :
      (fuel : ℕ) (b : Block) (bc : Blockchain T C) {bc' : Blockchain T C}
      → IsChain bc
      → length bc.headers + 1 < 2 ^ 32
      → add_block store engine prims fuel b bc ≡ some (bc', ok tt)
      → IsChain bc' × (height bc' ≡ height bc + 1) × (bc'.headers ≡ bc.headers ++ b.header ∷ [])
  unfolding height
  add_block-IsChain fuel b bc {bc'} chain room done =
      let (linked, _, _, _, headers, _, put) =
        add_block-inv store engine prims fuel b bc {bc' = bc'} done in
      let len = height-length bc chain in
      let (top, found) = get_elem?-some bc.headers (height bc) (omega arith) in
      let (next, link) = (check_link_lem b bc chain found).0 linked in
      let longer : length bc'.headers ≡ length bc.headers + 1 =
        ap length headers ∙ length-append bc.headers (b.header ∷ []) in
      (
        record {
          started = omega arith;
          short = omega arith;
          heights =
              rw headers (HeightsFrom-append 0 bc.headers b.header chain.heights (omega arith));
          linked = rw headers (
              AreLinked-append prims bc.headers b.header (height bc) (omega arith) chain.linked
                found link);
          stored =
              rw headers
                (put-AreStored bc.store bc'.store bc.headers b chain.stored next chain.short put);
        },
        omega arith,
        headers,
      )

  -- A successful `AddBlock` mints 5 and nothing else, as long as the total stays below 2^64.
  pub add_block-supply :
      (fuel : ℕ) (b : Block) (bc : Blockchain T C) {bc' : Blockchain T C}
      → supply bc.world_state + 5 < 2 ^ 64
      → add_block store engine prims fuel b bc ≡ some (bc', ok tt)
      → supply bc'.world_state ≡ supply bc.world_state + 5
  add_block-supply fuel b bc {bc'} fits done =
      let (_, _, ws, executed, _, world, _) =
        add_block-inv store engine prims fuel b bc {bc' = bc'} done in
      let same =
        execute_all-supply prims fuel b.transactions bc.world_state {p = (ws, ok tt)} (omega arith)
          executed in
      ap supply world
      ∙ supply-add_balance ws b.header.coinbase 5 (omega arith)
      ∙ ap (λ n. n + 5) same

  -- `AddBlock` returns, with more rounds than any gas limit of its transactions, where these are below
  -- 2^64 - 1.
  pub add_block_returns :
      (fuel : ℕ) (b : Block) (bc : Blockchain T C)
      → AreBounded fuel b.transactions
      → (p : Blockchain T C × Result (Unit {0})) × (add_block store engine prims fuel b bc ≡ some p)
  unfolding add_block apply_block
  add_block_returns fuel b bc bounded =
      let v = validate_block store engine prims b bc in
      elim (Result-cases v.1) [
        | inr (inl (e, bad)) ↦ ((v.0, err e), rw (add_block, bad))
        | inr (inr (p, bad)) ↦ ((v.0, panic p), rw (add_block, bad))
        | inl (u, fine) ↦
            let (p, executed) =
              execute_all_returns prims fuel b.transactions v.0.world_state bounded in
            (
              and_then (record v.0 { world_state = p.0 }, p.1)
                  λ bc'.
                    add_block_without_validation store engine prims b
                      (settle store engine prims b bc'),
              rw (add_block, fine, apply_block, executed),
            )
      ]
