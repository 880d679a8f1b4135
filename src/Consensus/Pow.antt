-- ===== src/Consensus/Pow.antt =====
-- consensus/pow.go: the proof-of-work engine. The clock is the parameter `timed_out`, which tells
-- for a nonce whether `miningTimeout` has passed when the loop has come to it.
pub mod Mining
use blockz.Prelude.{
  ℕ, zero, suc, ◌+◌, ◌-◌, ◌*◌, ◌/◌, ◌%◌, ◌^◌, ◌<◌, ◌≤◌, ◌≡◌, ◌≢◌, ◌↔◌, refl, sym, ap, ◌∙◌, Bool,
  true, false, ◌&&◌, Option, none, some, if◌then◌else◌, leb, ltb, ◌==◌, arith, Bool-cases, inl, inr,
}
use blockz.Result.{
  Result, ok, err, panic, ◌>>=◌, makeslice, pow_unsatisfied, mining_timeout, nonce_exhausted,
}
use blockz.Core.Evm.Word.{set_bytes}
use blockz.Core.Data.{Header, Primitives}
use blockz.Core.Block.{block_hasher}
use blockz.Core.Consensus.{ConsensusEngine, pow}

pub record PowEngine : Type 0 where
  pub target_difficulty : ℕ

abbrev pub default_difficulty : ℕ
default_difficulty = 16

-- `math.MaxUint64`
abbrev pub max_uint64 : ℕ
max_uint64 = 2 ^ 64 - 1

unfoldable pub new_pow_engine : ℕ → PowEngine
new_pow_engine difficulty = record {
  target_difficulty = if difficulty == 0 then default_difficulty else difficulty;
}

unfoldable pub prepare : PowEngine → Header → Result Header
prepare e h = ok (record h { difficulty = e.target_difficulty })

module _ (prims : Primitives) where
  -- `Lsh` of 1: the result has a word for each 64 bits of the shift, one for the rest and one for a
  -- carry, and is allocated with four words to spare.
  unfoldable pub shifted_one : ℕ → Result ℕ
  shifted_one shift =
      if ltb prims.host.max_alloc (8 * (shift / 64 + 6)) then panic makeslice else ok (2 ^ shift)

  -- `Lsh(1, uint(256-difficulty))`: the difference is one of `uint64`, and wraps.
  unfoldable pub target : ℕ → Result ℕ
  target difficulty = shifted_one ((256 + 2 ^ 64 - difficulty) % 2 ^ 64)

  -- `CalculateBlockWeight`
  unfoldable pub block_weight : Header → Result ℕ
  block_weight h = shifted_one h.difficulty

  -- The test of `VerifyHeader` and of `Seal`
  unfoldable pub satisfies : ℕ → Header → Bool
  satisfies bound h = leb (set_bytes (block_hasher prims h)) bound

  unfoldable pub verify_header : Header → Result (Unit {0})
  verify_header h =
      target h.difficulty >>= λ bound. if satisfies bound h then ok tt else err pow_unsatisfied

  -- The loop of `Seal` from nonce `n` on, with the number of nonces that are left below
  -- `math.MaxUint64`.
  unfoldable pub seal_from : (ℕ → Bool) → ℕ → ℕ → ℕ → Header → Header × Result (Unit {0})
  seal_from timed_out bound zero n h = (h, err nonce_exhausted)
  seal_from timed_out bound (suc left) n h = elim (satisfies bound (record h { nonce = n })) [
    | true ↦ (record h { nonce = n }, ok tt)
    | false ↦ elim ((suc n % 100000 == 0) && timed_out (suc n)) [
      | true ↦ (record h { nonce = n }, err mining_timeout)
      | false ↦ seal_from timed_out bound left (suc n) (record h { nonce = n })
    ]
  ]

  unfoldable pub seal : (ℕ → Bool) → PowEngine → Header → Header × Result (Unit {0})
  seal timed_out e h = elim (target e.target_difficulty) [
    | ok bound ↦ seal_from timed_out bound max_uint64 0 h
    | err x ↦ (h, err x)
    | panic p ↦ (h, panic p)
  ]

  unfoldable pub pow_engine : (ℕ → Bool) → ConsensusEngine PowEngine
  pow_engine timed_out = record {
    consensus_type = λ _. pow;
    verify_header = λ e h. (e, verify_header h);
    author = λ e h. ok h.coinbase;
    prepare = prepare;
    seal = seal timed_out;
    slash = none;
    calculate_block_weight = some (λ e h. block_weight h);
  }
