-- ===== src/Network/Server/Sync/Collect.antt =====
-- network/server.go: what `processGetBlocks` sends from a chain that is in order.
use blockz.Prelude.{
  ℕ, zero, suc, ◌+◌, ◌-◌, ◌%◌, ◌^◌, ◌≤◌, ◌<◌, ◌≡◌, refl, sym, ap, ◌∙◌, List, [], ◌∷◌, ◌++◌, some,
  map, length, length-drop, if◌then◌else◌, ◌==◌, ltb, get_elem?, get_elem?-some, take, drop, arith,
  leb, true, false, Bool-cases, inl, inr,
}
use mathlib.Core.List.{append-nil, append_assoc}
use blockz.Result.{ok}
use blockz.Core.Data.{Block}
use blockz.Core.Blockchain.{Blockchain, height}
use blockz.Core.Blockchain.Chain.{IsChain, height-length}
use blockz.Network.Message.{NetAddr, GetBlocksMessage, blocks}
use blockz.Network.Server.{Env, Server, send_payload}
use blockz.Network.Server.Sync.{collect, last_wanted, process_get_blocks}

drop-get {ℓ} :
    {A : Type ℓ} (xs : List A) (i : ℕ) {x : A}
    → get_elem? xs i ≡ some x
    → drop i xs ≡ x ∷ drop (suc i) xs
drop-get [] i h = cc
drop-get (y ∷ xs) zero h = ground arith
drop-get (y ∷ xs) (suc i) h = drop-get xs i h

pub take_all {ℓ} : {A : Type ℓ} (n : ℕ) (xs : List A) → length xs ≤ n → take n xs ≡ xs
take_all zero [] h = refl
take_all zero (x ∷ xs) h = absurd (omega arith)
take_all (suc n) [] h = refl
take_all (suc n) (x ∷ xs) h = ap (λ ys. x ∷ ys) (take_all n xs (omega arith))

module _ {T C N Tr : Type 0} (env : Env T C N Tr) where
  abbrev pub Chains : Blockchain T C → Type 0
  Chains = IsChain env.storage env.engine env.prims

  -- The `n` blocks from height `i` on
  collect_lem :
      (n rounds i to : ℕ) (found : List Block) (bc : Blockchain T C)
      → Chains bc
      → i + n ≤ length bc.headers
      → to + 1 ≡ i + n
      → n < rounds
      → (bs : List Block) × (collect env rounds i to found bc ≡ some (ok (found ++ bs)))
        × (map (λ b. b.header) bs ≡ take n (drop i bc.headers))
  unfolding collect
  collect_lem n zero i to found bc chain fits last enough = absurd (omega arith)
  collect_lem zero (suc rounds) i to found bc chain fits last enough =
      let past : leb i to ≡ false = ground arith in ([], rw (collect, past, append-nil found), refl)
  collect_lem (suc n) (suc rounds) i to found bc chain fits last enough =
      let here : leb i to ≡ true = ground arith in
      let (h, at) = get_elem?-some bc.headers i (omega arith) in
      let (b, got, same) = chain.stored i h at in
      let next : (i + 1) % 2 ^ 32 ≡ suc i = omega (arith, chain.short) in
      let (bs, done, headers) =
        collect_lem n rounds ((i + 1) % 2 ^ 32) to (found ++ b ∷ []) bc chain (omega (arith, next))
          (omega (arith, next)) (omega arith) in
      let grown = done ∙ ap (λ xs. some (ok xs)) (append_assoc found (b ∷ []) bs) in
      let rest = headers ∙ ap (λ k. take n (drop k bc.headers)) next in
      (
        b ∷ bs,
        rw (collect, here, got) grown,
        (λ k. same k ∷ rest k) ∙ sym (ap (take (suc n)) (drop-get bc.headers i at)),
      )

  collect_past :
      (rounds i to : ℕ) (bc : Blockchain T C)
      → leb i to ≡ false
      → 0 < rounds
      → collect env rounds i to [] bc ≡ some (ok [])
  unfolding collect
  collect_past zero i to bc past enough = absurd (omega arith)
  collect_past (suc rounds) i to bc past enough = rw (collect, past)

  -- What is sent ends with the last block that is wanted.
  pub process_get_blocks-last_wanted :
      (rounds : ℕ) (from : NetAddr) (m : GetBlocksMessage) (s : Server T C N Tr)
      → Chains s.chain
      → length s.chain.headers < rounds
      → (bs : List Block) × (collect env rounds m.from (last_wanted env m s.chain) [] s.chain
          ≡ some (ok bs))
        × (process_get_blocks env rounds from m s ≡ some (send_payload env from (blocks bs) s))
        × (map (λ b. b.header) bs
            ≡ take (last_wanted env m s.chain + 1 - m.from) (drop m.from s.chain.headers))
  unfolding process_get_blocks last_wanted
  process_get_blocks-last_wanted rounds from m s chain enough =
      let last = last_wanted env m s.chain in
      let low : last + 1 ≤ length s.chain.headers =
        ground (arith, height-length env.storage env.engine env.prims s.chain chain) in
      elim (Bool-cases (leb m.from last)) [
        | inl some_there ↦
            let (bs, done, headers) =
              collect_lem (last + 1 - m.from) rounds m.from last [] s.chain chain (ground arith)
                (ground arith) (ground arith) in
            (bs, done, rw (process_get_blocks, done), headers)
        | inr beyond ↦ (
          [],
          collect_past rounds m.from last s.chain beyond (omega arith),
          rw (process_get_blocks, collect_past rounds m.from last s.chain beyond (omega arith)),
          ap (λ n. take n (drop m.from s.chain.headers)) {x = 0} (ground arith),
        )
      ]

  wanted_headers :
      (m : GetBlocksMessage) (bc : Blockchain T C)
      → Chains bc
      → take (last_wanted env m bc + 1 - m.from) (drop m.from bc.headers) ≡ (
          if m.to == 0
          then drop m.from bc.headers
          else take (m.to + 1 - m.from) (drop m.from bc.headers))
  unfolding last_wanted
  wanted_headers m bc chain =
      let len = height-length env.storage env.engine env.prims bc chain in
      let rest = drop m.from bc.headers in
      let whole : take (height bc + 1 - m.from) rest ≡ rest =
        take_all (height bc + 1 - m.from) rest
          (omega (arith, length-drop m.from bc.headers, len)) in
      elim (Bool-cases (m.to == 0)) [
        | inl all ↦ rw (last_wanted, all) whole
        | inr bounded ↦ elim (Bool-cases (ltb (height bc) m.to)) [
          | inr low ↦ rw (last_wanted, bounded, low)
          | inl high ↦
              let beyond : length rest ≤ m.to + 1 - m.from =
                ground (arith, length-drop m.from bc.headers, len) in
              let clamped = whole ∙ sym (take_all (m.to + 1 - m.from) rest beyond) in
              rw (last_wanted, bounded, high) clamped
        ]
      ]

  -- A node whose chain is in order answers a request for blocks, when the loop has more rounds than there
  -- are headers. The blocks that it sends have the headers of its chain from the first height that was
  -- asked for: all of them when the last height that was asked for is 0, and otherwise those up to that
  -- height, as far as the chain goes.
  pub process_get_blocks_lem :
      (rounds : ℕ) (from : NetAddr) (m : GetBlocksMessage) (s : Server T C N Tr)
      → Chains s.chain
      → length s.chain.headers < rounds
      → (bs : List Block) × (process_get_blocks env rounds from m s
          ≡ some (send_payload env from (blocks bs) s))
        × (map (λ b. b.header) bs ≡ (
            if m.to == 0
            then drop m.from s.chain.headers
            else take (m.to + 1 - m.from) (drop m.from s.chain.headers)))
  process_get_blocks_lem rounds from m s chain enough =
      let (bs, _, sent, headers) = process_get_blocks-last_wanted rounds from m s chain enough in
      (bs, sent, headers ∙ wanted_headers m s.chain chain)
