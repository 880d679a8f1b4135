-- ===== src/Tests/Engines.antt =====
-- The two engines on small inputs.
use blockz.Prelude.{
  ℕ, ◌<◌, ◌≡◌, ◌≢◌, refl, true, false, ◌=?◌, bytes_eq, some, if◌then◌else◌, length, arith,
}
use blockz.Result.{ok, panic, makeslice}
use blockz.Map.{lookup, insert}
use blockz.Types.{Address}
use blockz.Core.Evm.Word.{set_bytes_from, set_bytes}
use blockz.Core.Data.{Header}
use blockz.Core.Block.{block_hasher}
use blockz.Consensus.Pow.{PowEngine, max_uint64, shifted_one, target, satisfies, block_weight}
use blockz.Consensus.Pow.Mining.{seal-verify_header}
use blockz.Consensus.Pos.{
  PosEngine, new_pos_engine, add_validator, select_proposer, seen_at, set_seen, record_seen, slash,
  without,
}
use blockz.Consensus.Pos.Slashing.{slash_lem}
use blockz.Consensus.ForkChoice.{ChainMetadata, compare_heaviest, compare_longest, cmp}
use blockz.Tests.{test_prims, test_header, alice, bob}
use blockz.Consensus.Pow
use blockz.Consensus.Pos

program : Unit {0}
unfolding lookup insert set_bytes_from set_bytes block_hasher shifted_one target satisfies
    block_weight Pow.prepare Pow.verify_header Pow.seal_from Pow.seal new_pos_engine add_validator
    select_proposer seen_at set_seen record_seen slash without Pos.verify_header compare_heaviest
    compare_longest cmp
program = tt

abbrev engine : PowEngine
engine = record { target_difficulty = 250 }

-- The encoding of a header at height 0 is its nonce, which is to be at most 64.
abbrev easy : Header
easy = record (test_header 0) { difficulty = 250 }

sealed : Pow.seal test_prims (λ n. false) engine easy ≡ (easy, ok tt)
unfolding program
sealed = refl

-- A difficulty beyond 256 makes a shift that no memory holds.
far : target test_prims 300 ≡ panic makeslice
unfolding program
far = refl

near : target test_prims 250 ≡ ok 64
unfolding program
near = refl

five : satisfies test_prims 64 (record easy { nonce = 5 }) ≡ true
unfolding program
five = refl

-- The first nonce is good.
seal-verify_header_example :
    (Pow.verify_header test_prims easy ≡ ok tt)
    × (bound : ℕ) × (target test_prims 250 ≡ ok bound)
    × (m : ℕ) × (m < max_uint64)
    × (easy ≡ record (test_header 0) { difficulty = 250; nonce = m })
    × ((k : ℕ) → k < m → satisfies test_prims bound (record easy { nonce = k }) ≡ false)
unfolding Pow.prepare
seal-verify_header_example =
    seal-verify_header test_prims (λ n. false) engine (test_header 0) {h₁ = easy} {h₂ = easy} refl
      sealed

-- Alice has the stake 100, Bob 200.
abbrev two_validators : PosEngine
unfolding add_validator
two_validators = add_validator bob 200 (add_validator alice 100 new_pos_engine)

known : lookup alice two_validators.validators ≡ some 100
unfolding program two_validators
known = refl

slash_lem_example :
    ((other : Address)
      → lookup other (slash alice two_validators).validators
        ≡ (if alice =? other then some 50 else lookup other two_validators.validators))
    × ((height : ℕ) → select_proposer height (slash alice two_validators) ≢ ok alice)
slash_lem_example = slash_lem alice two_validators known

busy : 0 < length two_validators.active_set
unfolding program two_validators
busy = omega arith

-- The engine behind Alice's header at height 0.
abbrev seen_engine : PosEngine
seen_engine = (Pos.verify_header test_prims two_validators (test_header 0)).0

accepted : Pos.verify_header test_prims two_validators (test_header 0) ≡ (seen_engine, ok tt)
unfolding program two_validators
accepted = refl

abbrev chain_a : ChainMetadata
chain_a = record { height = 10; cumulative_difficulty = 100 }

abbrev chain_b : ChainMetadata
chain_b = record { height = 11; cumulative_difficulty = 90 }
