-- ===== src/Consensus/Pos.antt =====
-- consensus/pos.go: the proof-of-stake engine.
pub mod Slashing
pub mod Proposer
use blockz.Prelude.{
  ℕ, zero, suc, ◌+◌, ◌-◌, ◌/◌, ◌%◌, Bool, true, false, ◌&&◌, List, [], ◌∷◌, ◌++◌, Option, none,
  some, if◌then◌else◌, length, get_elem?, ◌==◌, ◌=?◌, bytes_eq, nat_eq,
}
use blockz.Result.{
  Result, ok, err, panic, ◌>>=◌, no_validators, unexpected_proposer, double_signed,
  index_out_of_range,
}
use blockz.Map.{Map, lookup, insert}
use blockz.Types.{Address, Hash}
use blockz.Core.Data.{Header, Primitives}
use blockz.Core.Block.{block_hasher}
use blockz.Core.Consensus.{ConsensusEngine, pos}

pub record PosEngine : Type 0 where
  pub validators : Map Address ℕ
  pub active_set : List Address
  pub seen_headers : Map ℕ (Map Address Hash)

unfoldable pub new_pos_engine : PosEngine
new_pos_engine = record { validators = []; active_set = []; seen_headers = [] }

unfoldable pub add_validator : Address → ℕ → PosEngine → PosEngine
add_validator addr stake e = record e {
  validators = insert addr stake e.validators;
  active_set = e.active_set ++ addr ∷ [];
}

-- `SelectProposer`, also `selectProposerLocked`
unfoldable pub select_proposer : ℕ → PosEngine → Result Address
select_proposer height e =
    if length e.active_set == 0
    then err no_validators
    else elim (get_elem? e.active_set (height % length e.active_set)) [
      | none ↦ panic index_out_of_range
      | some proposer ↦ ok proposer
    ]

-- `pos.seenHeaders[height]`, an empty map where there is none.
unfoldable pub seen_at : ℕ → PosEngine → Map Address Hash
seen_at height e = elim (lookup height e.seen_headers) [ none ↦ [] | some m ↦ m ]

unfoldable pub set_seen : ℕ → Map Address Hash → PosEngine → PosEngine
set_seen height m e = record e { seen_headers = insert height m e.seen_headers }

-- The double-signing check of `VerifyHeader`
unfoldable pub record_seen : Hash → Header → PosEngine → PosEngine × Result (Unit {0})
record_seen hash h e =
    let seen = seen_at h.height e in
    let recorded : PosEngine × Result (Unit {0}) =
      (set_seen h.height (insert h.coinbase hash seen) e, ok tt) in
    elim (lookup h.coinbase seen) [
      | none ↦ recorded
      | some existing ↦
          if existing =? hash then recorded else (set_seen h.height seen e, err double_signed)
    ]

-- The filter loop of `Slash`
unfoldable pub without : Address → List Address → List Address
without addr [] = []
without addr (a ∷ rest) = let kept = without addr rest in if a =? addr then kept else a ∷ kept

unfoldable pub slash : Address → PosEngine → PosEngine
slash addr e = elim (lookup addr e.validators) [
  | none ↦ e
  | some stake ↦ record e {
    validators = insert addr (stake / 2) e.validators;
    active_set = without addr e.active_set;
  }
]

unfoldable pub prepare : PosEngine → Header → Result Header
prepare e h = select_proposer h.height e >>= λ proposer. ok (record h { coinbase = proposer })

unfoldable pub check_slashing : Header → Header → Option Address
check_slashing h1 h2 =
    if (h1.height == h2.height) && (h1.coinbase =? h2.coinbase) then some h1.coinbase else none

module _ (prims : Primitives) where
  unfoldable pub verify_header : PosEngine → Header → PosEngine × Result (Unit {0})
  verify_header e h = elim (select_proposer h.height e) [
    | err x ↦ (e, err x)
    | panic p ↦ (e, panic p)
    | ok expected ↦
        if expected =? h.coinbase
        then record_seen (block_hasher prims h) h e
        else (e, err unexpected_proposer)
  ]

  unfoldable pub pos_engine : ConsensusEngine PosEngine
  pos_engine = record {
    consensus_type = λ _. pos;
    verify_header = verify_header;
    author = λ e h. ok h.coinbase;
    prepare = prepare;
    seal = λ e h. (h, ok tt);
    slash = some (λ e addr. slash addr e);
    calculate_block_weight = none;
  }
