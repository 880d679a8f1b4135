-- ===== src/Core/Evm/Tests.antt =====
-- Runs of small programs.
use blockz.Prelude.{ℕ, ◌≡◌, refl, [], ◌∷◌, Option, none, some, replicate, ◌++◌, ◌^◌}
use blockz.Result.{Result, ok, panic, slice_out_of_range}
use blockz.Types.{Bytes}
use blockz.Core.WorldState.{new_world_state, get_account_state, set_account_state}
use blockz.Core.WorldState.Contracts.{world_state_db}
use blockz.Core.Evm.Machine.{Host, new_evm, decode, consume_gas, is_valid_jump_dest}
use blockz.Core.Evm.Word.{set_bytes}
use blockz.Core.Evm.Stack.{push, pop, swap}
use blockz.Core.Evm.Memory.{get, set, set32}
use blockz.Core.Evm.Exec.{
  key_hash, value_bytes, binary_value, call_data_word, exec_binary, exec_push, exec_dup, exec_swap,
  exec_is_zero, exec_sha3, exec_mload, exec_mstore, exec_mstore8, exec_sload, exec_sstore,
  exec_calldataload, jump_to, exec_jump, exec_jumpi, exec_return,
}
use blockz.Core.Evm.Run.{exec, tick, run}

-- The identity in place of the hash functions.
abbrev test_host : Host
test_host = record { max_alloc = 2 ^ 30; sha256 = λ b. b; keccak256 = λ b. b }

program : Unit {0}
unfolding run tick exec decode consume_gas new_evm get_account_state set_account_state push pop swap
    get set set32 set_bytes key_hash value_bytes exec_binary binary_value exec_push exec_dup
    exec_swap exec_is_zero exec_sha3 exec_mload exec_mstore exec_mstore8 exec_sload exec_sstore
    exec_calldataload call_data_word jump_to exec_jump exec_jumpi is_valid_jump_dest exec_return
program = tt

outcome : Bytes → ℕ → Option (Result Bytes)
unfolding program
outcome code fuel =
    elim (run test_host fuel (new_evm code [] new_world_state (1 ∷ []) (2 ∷ []) 0 1000)) [
      | none ↦ none
      | some p ↦ some p.1
    ]

-- `sampleContract` of main.go stores 5 at key 0, loads it and returns it as a word.
sample_contract :
    outcome
      (0x60 ∷ 0x05 ∷ 0x60 ∷ 0x00 ∷ 0x55 ∷ 0x60 ∷ 0x00 ∷ 0x54 ∷ 0x60 ∷ 0x00 ∷ 0x52 ∷ 0x60 ∷ 0x20
        ∷ 0x60 ∷ 0x00 ∷ 0xf3 ∷ [])
      20
    ≡ some (ok (replicate 31 0 ++ 5 ∷ []))
unfolding outcome
sample_contract = refl

-- `PUSH1 0, PUSH1 1, RETURN`: no byte from offset 1 of the empty memory.
empty_return : outcome (0x60 ∷ 0x00 ∷ 0x60 ∷ 0x01 ∷ 0xf3 ∷ []) 20 ≡ some (panic slice_out_of_range)
unfolding outcome
empty_return = refl
