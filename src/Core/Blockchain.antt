-- ===== src/Core/Blockchain.antt =====
-- core/blockchain.go and core/validator.go: the chain. A method returns the new chain beside its
-- result, also where it fails: what was changed before the failure stays changed. The locks
-- serialise the methods. Logging is left out.
pub mod Execution
pub mod Links
pub mod Steps
pub mod Reads
pub mod Chain
pub mod Failures
pub mod Start
use blockz.Prelude.{
  ℕ, zero, suc, ◌+◌, ◌-◌, ◌%◌, ◌^◌, Bool, true, false, List, [], ◌∷◌, ◌++◌, Option, none, some,
  if◌then◌else◌, ◌==◌, ltb, leb, length, get_elem?, ◌=?◌, bytes_eq,
}
use blockz.Result.{
  and_then, Result, ok, err, panic, ◌>>=◌, ◌>>◌, already_contains, too_high, bad_prev_hash,
  nil_dereference, index_out_of_range, type_assertion,
}
use blockz.Types.{Bytes, Address, Hash}
use blockz.Core.WorldState.{WorldState, new_world_state, transfer, increment_nonce, add_balance}
use blockz.Core.WorldState.Contracts.{world_state_db}
use blockz.Core.Evm.Machine.{Evm, new_evm}
use blockz.Core.Evm.Run.{run}
use blockz.Core.Data.{Transaction, Header, Block, Primitives}
use blockz.Core.Transaction.{key_address}
use blockz.Core.Block.{block_hasher, block_verify}
use blockz.Core.Consensus.{ConsensusEngine}
use blockz.Core.Storage.{Storage}

-- The chain over a store and an engine. The oldest header comes first. `total_difficulty` is a
-- pointer, which `NewBlockchainWithState` leaves nil. The validator is the `BlockValidator`.
pub record Blockchain (T C : Type 0) : Type 0 where
  pub store : T
  pub headers : List Header
  pub consensus : Option C
  pub world_state : WorldState
  pub total_difficulty : Option ℕ

module _ {T C : Type 0} where
  -- `SetConsensus`
  unfoldable pub set_consensus : C → Blockchain T C → Blockchain T C
  set_consensus c bc = record bc { consensus = some c }

  -- `heightLocked`, also `Height`: a `uint32` of the length less 1
  unfoldable pub height : Blockchain T C → ℕ
  height bc = (length bc.headers + 2 ^ 32 - 1) % 2 ^ 32

  -- `hasBlockLocked`, also `HasBlock`
  unfoldable pub has_block : ℕ → Blockchain T C → Bool
  has_block h bc = leb h (height bc)

  unfoldable pub get_header_locked : ℕ → Blockchain T C → Result Header
  get_header_locked h bc =
      if leb (length bc.headers % 2 ^ 32) h
      then err too_high
      else elim (get_elem? bc.headers h) [ none ↦ panic index_out_of_range | some x ↦ ok x ]

  unfoldable pub get_header : ℕ → Blockchain T C → Result Header
  get_header h bc =
      if ltb (height bc) h
      then err too_high
      else elim (get_elem? bc.headers h) [ none ↦ panic index_out_of_range | some x ↦ ok x ]

-- `executeTransaction` on the world state; the machine gets `fuel` rounds, and `none` means that it
-- would go on.
unfoldable pub run_payload :
    Primitives → ℕ → Transaction → WorldState → Option (WorldState × Result (Unit {0}))
run_payload prims fuel tx ws =
    if length tx.payload == 0 then some (ws, ok tt) else elim (key_address prims tx.from) [
      | panic p ↦ some (ws, panic p)
      | err e ↦ some (ws, err e)
      | ok from ↦
          elim (run prims.host fuel (new_evm tx.payload [] ws tx.to from tx.value tx.gas_limit)) [
            | none ↦ none
            | some p ↦ some (p.0.state, p.1 >>= λ _. ok tt)
          ]
    ]

unfoldable pub apply_value : Primitives → Transaction → WorldState → WorldState × Result (Unit {0})
apply_value prims tx ws =
    if ltb 0 tx.value
    then elim (key_address prims tx.from) [
      | panic p ↦ (ws, panic p)
      | err e ↦ (ws, err e)
      | ok from ↦ transfer ws from tx.to tx.value
    ]
    else (ws, ok tt)

unfoldable pub bump_sender : Primitives → Transaction → WorldState → WorldState × Result (Unit {0})
bump_sender prims tx ws = elim tx.signature [
  | none ↦ (ws, ok tt)
  | some sig ↦ elim (key_address prims tx.from) [
    | panic p ↦ (ws, panic p)
    | err e ↦ (ws, err e)
    | ok from ↦ (increment_nonce ws from, ok tt)
  ]
]

unfoldable pub execute_transaction :
    Primitives → ℕ → Transaction → WorldState → Option (WorldState × Result (Unit {0}))
execute_transaction prims fuel tx ws = elim (run_payload prims fuel tx ws) [
  | none ↦ none
  | some p ↦ some (and_then (and_then p (apply_value prims tx)) (bump_sender prims tx))
]

-- The loop of `AddBlock` over the transactions, left at the first that fails
unfoldable pub execute_all :
    Primitives → ℕ → List Transaction → WorldState → Option (WorldState × Result (Unit {0}))
execute_all prims fuel [] ws = some (ws, ok tt)
execute_all prims fuel (tx ∷ txx) ws = elim (execute_transaction prims fuel tx ws) [
  | none ↦ none
  | some p ↦ elim p.1 [
    | ok u ↦ execute_all prims fuel txx p.0
    | err e ↦ some (p.0, err e)
    | panic q ↦ some (p.0, panic q)
  ]
]

module _ {T C : Type 0} (store : Storage T) (engine : ConsensusEngine C) (prims : Primitives) where
  -- The consensus part of `ValidateBlockLocked`
  unfoldable pub check_consensus : Header → Blockchain T C → Blockchain T C × Result (Unit {0})
  check_consensus h bc = elim bc.consensus [
    | none ↦ (bc, ok tt)
    | some c ↦ let (c', r) = engine.verify_header c h in (record bc { consensus = some c' }, r)
  ]

  -- The link of a block to the header below it
  unfoldable pub check_link : Block → Blockchain T C → Result (Unit {0})
  check_link b bc =
      if has_block b.header.height bc
      then err already_contains
      else (if b.header.height == (height bc + 1) % 2 ^ 32
          then (get_header_locked ((b.header.height + 2 ^ 32 - 1) % 2 ^ 32) bc >>= λ prev.
              if block_hasher prims prev =? b.header.prev_block_hash
              then ok tt
              else err bad_prev_hash)
          else err too_high)

  -- `ValidateBlockLocked`
  unfoldable pub validate_block : Block → Blockchain T C → Blockchain T C × Result (Unit {0})
  validate_block b bc =
      and_then (and_then (bc, check_link b bc) (check_consensus b.header))
        λ bc'. (bc', block_verify prims b)

  -- The loop of `AddBlock` over the evidence: an engine with no `Slash` is left alone.
  unfoldable pub slash_all : List Header → C → C
  slash_all [] c = c
  slash_all (h ∷ evidence) c = elim engine.slash [
    | none ↦ slash_all evidence c
    | some slash ↦ slash_all evidence (slash c h.coinbase)
  ]

  -- The weight of a block: the assertion on the engine's type, then the sum through the pointer.
  unfoldable pub add_weight : Header → Blockchain T C → Blockchain T C × Result (Unit {0})
  add_weight h bc = elim bc.consensus [
    | none ↦ (bc, ok tt)
    | some c ↦ elim engine.calculate_block_weight [
      | none ↦ (bc, panic type_assertion)
      | some weigh ↦ elim (weigh c h) [
        | err e ↦ (bc, err e)
        | panic p ↦ (bc, panic p)
        | ok w ↦ elim bc.total_difficulty [
          | none ↦ (bc, panic nil_dereference)
          | some d ↦ (record bc { total_difficulty = some (d + w) }, ok tt)
        ]
      ]
    ]
  ]

  unfoldable pub put_block : Block → Blockchain T C → Blockchain T C × Result (Unit {0})
  put_block b bc = let (s', r) = store.put bc.store b in (record bc { store = s' }, r)

  -- `addBlockWithoutValidationLocked`
  unfoldable pub add_block_without_validation :
      Block → Blockchain T C → Blockchain T C × Result (Unit {0})
  add_block_without_validation b bc =
      and_then (add_weight b.header (record bc { headers = bc.headers ++ b.header ∷ [] }))
        (put_block b)

  -- The evidence is processed and the block reward is minted.
  unfoldable pub settle : Block → Blockchain T C → Blockchain T C
  settle b bc = record bc {
    consensus = elim bc.consensus [ none ↦ none | some c ↦ some (slash_all b.evidence c) ];
    world_state = add_balance bc.world_state b.header.coinbase 5;
  }

  -- `AddBlock` behind the validation
  unfoldable pub apply_block :
      ℕ → Block → Blockchain T C → Option (Blockchain T C × Result (Unit {0}))
  apply_block fuel b bc = elim (execute_all prims fuel b.transactions bc.world_state) [
    | none ↦ none
    | some p ↦ some (
        and_then (record bc { world_state = p.0 }, p.1)
          λ bc'. add_block_without_validation b (settle b bc'))
  ]

  -- `AddBlock`
  unfoldable pub add_block :
      ℕ → Block → Blockchain T C → Option (Blockchain T C × Result (Unit {0}))
  add_block fuel b bc = elim (validate_block b bc).1 [
    | ok u ↦ apply_block fuel b (validate_block b bc).0
    | err e ↦ some ((validate_block b bc).0, err e)
    | panic p ↦ some ((validate_block b bc).0, panic p)
  ]
