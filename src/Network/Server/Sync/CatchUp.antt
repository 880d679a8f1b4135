-- ===== src/Network/Server/Sync/CatchUp.antt =====
-- network/server.go: a node that is behind asks one that is ahead, and takes the blocks it is sent.
use blockz.Prelude.{
  ℕ, suc, ◌+◌, ◌-◌, ◌%◌, ◌^◌, ◌<◌, ◌≡◌, refl, sym, ap, ◌∙◌, List, [], ◌∷◌, ◌++◌, some, map, length,
  length-append, length-drop, take, drop, take-append-drop, arith, inl, inr, some_inj, Option-cases,
  ltb, true,
}
use mathlib.Core.List.{append-nil, append_assoc}
use blockz.Result.{Result, ok, ok_inj, Result-cases}
use blockz.Types.{Bytes}
use blockz.Core.Data.{Header, Block}
use blockz.Core.Codec.{sent_block}
use blockz.Core.Blockchain.{Blockchain, height, add_block}
use blockz.Core.Blockchain.Chain.{height-length, add_block-IsChain}
use blockz.Network.Message.{NetAddr, GetBlocksMessage, StatusMessage, get_blocks, blocks}
use blockz.Network.Server.{Env, Server, send_payload}
use blockz.Network.Server.Sync.{
  add_blocks, collect, process_blocks, process_get_blocks, process_status_message, last_wanted,
}
use blockz.Network.Server.Sync.Collect.{Chains, take_all, process_get_blocks-last_wanted}

module _ {T C N Tr : Type 0} (env : Env T C N Tr) where
  abbrev headers_of : List Block → List Header
  headers_of bs = map (λ b. b.header) bs

  add_blocks-inv :
      (fuel : ℕ) (b : Block) (bs : List Block) (bc : Blockchain T C) {bc' : Blockchain T C}
      → add_blocks env fuel (b ∷ bs) bc ≡ some (bc', ok tt)
      → (bc₁ : Blockchain T C) × (add_block env.storage env.engine env.prims fuel b bc
          ≡ some (bc₁, ok tt))
        × (add_blocks env fuel bs bc₁ ≡ some (bc', ok tt))
  unfolding add_blocks
  add_blocks-inv fuel b bs bc {bc'} done =
      elim (Option-cases (add_block env.storage env.engine env.prims fuel b bc)) [
        | inl on ↦ absurd (cc (rw (add_blocks, on) at done))
        | inr (p, added) ↦ elim (Result-cases p.1) [
          | inr (inl (e, bad)) ↦ absurd (
              cc (
                ap (λ (q : Blockchain T C × Result (Unit {0})). q.1)
                  (some_inj (rw (add_blocks, added, bad) at done))))
          | inr (inr (q, bad)) ↦ absurd (
              cc (
                ap (λ (q : Blockchain T C × Result (Unit {0})). q.1)
                  (some_inj (rw (add_blocks, added, bad) at done))))
          | inl (u, fine) ↦
              (p.0, added ∙ (λ i. some (p.0, fine i)), rw (add_blocks, added, fine) at done)
        ]
      ]

  -- A batch of blocks that is taken whole keeps the chain in order, and puts the headers of the batch
  -- on top of it.
  pub add_blocks-IsChain :
      (fuel : ℕ) (bs : List Block) (bc : Blockchain T C) {bc' : Blockchain T C}
      → Chains env bc
      → length bc.headers + length bs < 2 ^ 32
      → add_blocks env fuel bs bc ≡ some (bc', ok tt)
      → Chains env bc' × (bc'.headers ≡ bc.headers ++ headers_of bs)
  unfolding add_blocks
  add_blocks-IsChain fuel [] bc {bc'} chain room done =
      let same : bc ≡ bc' = ap (λ (q : Blockchain T C × Result (Unit {0})). q.0) (some_inj done) in
      (rw (← same) chain, rw (← same) (sym (append-nil bc.headers)))
  add_blocks-IsChain fuel (b ∷ bs) bc {bc'} chain room done =
      let (bc₁, added, rest) = add_blocks-inv fuel b bs bc {bc' = bc'} done in
      let (chain₁, _, headers₁) =
        add_block-IsChain env.storage env.engine env.prims fuel b bc {bc' = bc₁} chain (omega arith)
          added in
      let longer : length bc₁.headers ≡ length bc.headers + 1 =
        ap length headers₁ ∙ length-append bc.headers (b.header ∷ []) in
      let (chain', headers') = add_blocks-IsChain fuel bs bc₁ chain₁ (omega arith) rest in
      (
        chain',
        headers'
            ∙ ap (λ hs. hs ++ headers_of bs) headers₁
            ∙ append_assoc bc.headers (b.header ∷ []) (headers_of bs),
      )

  sent_headers : (bs : List Block) → headers_of (map sent_block bs) ≡ headers_of bs
  sent_headers [] = refl
  sent_headers (b ∷ bs) = ap (λ hs. b.header ∷ hs) (sent_headers bs)

  length-headers_of : (bs : List Block) → length (headers_of bs) ≡ length bs
  length-headers_of [] = refl
  length-headers_of (b ∷ bs) = ap suc (length-headers_of bs)

  process_blocks-inv :
      (fuel : ℕ) (bs : List Block) (s : Server T C N Tr) {s' : Server T C N Tr}
      → process_blocks env fuel bs s ≡ some (s', ok tt)
      → add_blocks env fuel bs s.chain ≡ some (s'.chain, ok tt)
  unfolding process_blocks
  process_blocks-inv fuel bs s {s'} done = elim (Option-cases (add_blocks env fuel bs s.chain)) [
    | inl on ↦ absurd (cc (rw (process_blocks, on) at done))
    | inr (p, added) ↦
        let same = some_inj (rw (process_blocks, added) at done) in
        added ∙ (λ i. some ((same i).0.chain, (same i).1))
  ]

  -- The blocks above a proper beginning of a chain bring it up to the whole.
  rest_of_chain :
      (hs gs : List Header) (last from : ℕ)
      → take (length gs) hs ≡ gs
      → last + 1 ≡ length hs
      → from ≡ length gs
      → gs ++ take (last + 1 - from) (drop from hs) ≡ hs
  rest_of_chain hs gs last from prefix whole start =
      let all = take_all (last + 1 - from) (drop from hs) (omega (arith, length-drop from hs)) in
      ap (λ xs. gs ++ xs) all
      ∙ (λ i. sym prefix i ++ drop (start i) hs)
      ∙ take-append-drop (length gs) hs

  -- Let the chain of `behind` be in order and a proper beginning of the chain of `ahead`, which is in
  -- order too. When `behind` gets the status of `ahead`, it asks for the blocks above its own height up
  -- to that of `ahead`. To that request `ahead` answers with the batch of blocks that its loop finds. If
  -- `behind` takes the batch, as a gob carries it, without an error, then it has the headers of
  -- `ahead`, and its chain is in order.
  pub catch_up :
      (fuel rounds : ℕ) (from to : NetAddr) (id : Bytes) (ahead behind behind' : Server T C N Tr)
      (bs : List Block)
      → Chains env ahead.chain
      → Chains env behind.chain
      → length behind.chain.headers < length ahead.chain.headers
      → take (length behind.chain.headers) ahead.chain.headers ≡ behind.chain.headers
      → length ahead.chain.headers < rounds
      → collect env rounds ((height behind.chain + 1) % 2 ^ 32) (height ahead.chain) [] ahead.chain
        ≡ some (ok bs)
      → process_blocks env fuel (map sent_block bs) behind ≡ some (behind', ok tt)
      → let status : StatusMessage = record { id = id; version = 1; height = height ahead.chain } in
        let request : GetBlocksMessage = record {
          from = (height behind.chain + 1) % 2 ^ 32;
          to = height ahead.chain;
        } in
        (process_status_message env to status behind
          ≡ send_payload env to (get_blocks request) behind)
        × (process_get_blocks env rounds from request ahead
            ≡ some (send_payload env from (blocks bs) ahead))
        × Chains env behind'.chain
        × (behind'.chain.headers ≡ ahead.chain.headers)
  unfolding process_status_message last_wanted process_get_blocks
  catch_up fuel rounds from to id ahead behind behind' bs chain_a chain_b shorter prefix enough
        collected done =
      let in_a = height-length env.storage env.engine env.prims ahead.chain chain_a in
      let in_b = height-length env.storage env.engine env.prims behind.chain chain_b in
      let lower : ltb (height behind.chain) (height ahead.chain) ≡ true = ground arith in
      let start : (height behind.chain + 1) % 2 ^ 32 ≡ length behind.chain.headers =
        omega (arith, chain_b.short) in
      let request : GetBlocksMessage = record {
        from = (height behind.chain + 1) % 2 ^ 32;
        to = height ahead.chain;
      } in
      let last : last_wanted env request ahead.chain + 1 ≡ length ahead.chain.headers =
        ground arith in
      let (bs₀, found, answered, headers₀) =
        process_get_blocks-last_wanted env rounds from request ahead chain_a enough in
      let top : last_wanted env request ahead.chain ≡ height ahead.chain = ground arith in
      let same : bs₀ ≡ bs = ok_inj (
        some_inj (
          sym found
          ∙ ap (λ to. collect env rounds request.from to [] ahead.chain) top
          ∙ collected)) in
      let headers = ap headers_of (sym same) ∙ headers₀ in
      let whole : behind.chain.headers ++ headers_of (map sent_block bs) ≡ ahead.chain.headers =
        ap (λ hs. behind.chain.headers ++ hs) (sent_headers bs ∙ headers)
        ∙ rest_of_chain ahead.chain.headers behind.chain.headers
            (last_wanted env request ahead.chain) request.from prefix last start in
      let lengths : length behind.chain.headers + length (map sent_block bs)
          ≡ length ahead.chain.headers =
        ap (λ n. length behind.chain.headers + n) (sym (length-headers_of (map sent_block bs)))
        ∙ sym (length-append behind.chain.headers (headers_of (map sent_block bs)))
        ∙ ap length whole in
      let added = process_blocks-inv fuel (map sent_block bs) behind {s' = behind'} done in
      let (chain', grown) =
        add_blocks-IsChain fuel (map sent_block bs) behind.chain {bc' = behind'.chain} chain_b
          (omega (arith, chain_a.short)) added in
      (
        rw (process_status_message, lower),
        answered ∙ ap (λ b. some (send_payload env from (blocks b) ahead)) same,
        chain',
        grown ∙ whole,
      )
