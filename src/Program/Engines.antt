-- ===== src/Program/Engines.antt =====
-- main.go: the engines that `createConsensusEngine` makes for nodes of one network.
use blockz.Prelude.{
  ℕ, ◌%◌, ◌≡◌, ◌≢◌, ap, true, false, [], ◌∷◌, none, some, ◌=?◌, bytes_eq, beq_refl, arith,
  bytes_beq_iff, get_elem?,
}
use blockz.Result.{ok, err, panic, index_out_of_range, unexpected_proposer}
use blockz.Map.{lookup}
use blockz.Types.{Bytes, Address}
use blockz.Text.{codes, to_lower}
use blockz.Core.Data.{Header, Primitives}
use blockz.Consensus.Pos.{
  PosEngine, new_pos_engine, add_validator, select_proposer, prepare, verify_header, seen_at,
  record_seen,
}
use blockz.Program.{pos, create_consensus_engine}

alone :
    (v : Address) (height : ℕ)
    → select_proposer height (add_validator v 1000000 new_pos_engine) ≡ ok v
unfolding select_proposer add_validator new_pos_engine
alone v height =
    let one : height % 1 ≡ 0 = omega arith in
    ap (λ i. elim (get_elem? (v ∷ []) i) [ none ↦ panic index_out_of_range | some a ↦ ok a ]) one

-- With the mode `pos`, however it is capitalised, the engine of a node has that node alone as a
-- validator. So a header that one node has prepared, at whatever height, passes the consensus check of
-- its own engine, and is refused by the engine that a node with another address has made for itself.
pub create_consensus_engine_split :
    (prims : Primitives) (mode : Bytes) (d d' : ℕ) (v v' : Address) (h : Header)
    → to_lower mode ≡ codes "pos"
    → v ≢ v'
    → (e e' : PosEngine) × (create_consensus_engine mode d v ≡ pos e)
      × (create_consensus_engine mode d' v' ≡ pos e')
      × (prepare e h ≡ ok (record h { coinbase = v }))
      × ((verify_header prims e (record h { coinbase = v })).1 ≡ ok tt)
      × (verify_header prims e' (record h { coinbase = v }) ≡ (e', err unexpected_proposer))
unfolding create_consensus_engine prepare verify_header record_seen seen_at add_validator
    new_pos_engine lookup
create_consensus_engine_split prims mode d d' v v' h lower other =
    let own = λ (a : Address). add_validator a 1000000 new_pos_engine in
    let kept : (v =? v) ≡ true = beq_refl v in
    let refused : (v' =? v) ≡ false = ground (arith, bytes_beq_iff v' v) in
    (
      own v,
      own v',
      rw (create_consensus_engine, lower),
      rw (create_consensus_engine, lower),
      rw (prepare, alone v h.height),
      rw (verify_header, alone v h.height, kept),
      rw (verify_header, alone v' h.height, refused),
    )
