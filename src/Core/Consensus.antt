-- ===== src/Core/Consensus.antt =====
-- core/consensus.go: the interface `ConsensusEngine`. core/blockchain.go asks of an engine two more
-- methods by type assertions; they are there or not, as the engine's type has them.
use blockz.Prelude.{ℕ, Option}
use blockz.Result.{Result}
use blockz.Types.{Address}
use blockz.Core.Data.{Header}

pub data ConsensusType : Type 0 where
  pow pos : ConsensusType

pub record ConsensusEngine (C : Type 0) : Type 0 where
  pub consensus_type : C → ConsensusType
  pub verify_header : C → Header → C × Result (Unit {0})
  pub author : C → Header → Result Address
  pub prepare : C → Header → Result Header
  -- `Seal` on the block's header, which it may change, also where it fails.
  pub seal : C → Header → Header × Result (Unit {0})
  -- `interface{ Slash(types.Address, string) }`
  pub slash : Option (C → Address → C)
  -- `interface{ CalculateBlockWeight(*Header) *big.Int }`
  pub calculate_block_weight : Option (C → Header → Result ℕ)
