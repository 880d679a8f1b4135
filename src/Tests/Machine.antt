-- ===== src/Tests/Machine.antt =====
-- The machine on small programs.
use blockz.Prelude.{
  ℕ, ◌+◌, ◌-◌, ◌*◌, ◌/◌, ◌%◌, ◌≤◌, ◌≡◌, ◌≢◌, refl, ltb, ◌==◌, [], ◌∷◌, none, some, if◌then◌else◌,
  arith, ap,
}
use blockz.Result.{Result, ok}
use blockz.Types.{Bytes}
use blockz.Core.WorldState.{WorldState, new_world_state}
use blockz.Core.WorldState.Contracts.{world_state_db}
use blockz.Core.Evm.Word.{word_mod, set_bytes, set_bytes_from, left_pad, bytes_of, digits_of}
use blockz.Core.Evm.Stack.{push, pop, AreWords}
use blockz.Core.Evm.Machine.{
  Evm, new_evm, decode, consume_gas, set_stack, continue, add, sub, mul, div, equal, less, greater,
  sload, sstore,
}
use blockz.Core.Evm.Exec.{key_hash, exec_push}
use blockz.Core.Evm.Run.{exec, tick, run}
use blockz.Core.Evm.Loop.{run_terminates}
use blockz.Core.Evm.Invariant.{run-HasWords}
use blockz.Core.Evm.Arithmetic.{word_of, exec_arithmetic}
use blockz.Core.Evm.Storage.{sload-sstore}
use blockz.Core.Evm.Unbounded.{endless, no_limit, run-endless}
use blockz.Tests.{test_host, alice, bob}

program : Unit {0}
unfolding new_evm decode consume_gas exec tick run exec_push push pop set_bytes key_hash left_pad
    bytes_of digits_of set_bytes_from
program = tt

-- `PUSH1 5, STOP`
abbrev small_code : Bytes
small_code = 0x60 ∷ 5 ∷ 0 ∷ []

abbrev machine : Evm WorldState
unfolding new_evm
machine = new_evm small_code [] new_world_state alice bob 0 100

run_terminates_example :
    (evm' : Evm WorldState) × (r : Result Bytes) × (run test_host 101 machine ≡ some (evm', r))
    × (evm'.gas_used ≤ evm'.gas_limit)
unfolding machine new_evm
run_terminates_example =
    run_terminates test_host 101 machine (record { covered = omega arith; finite = omega arith })
      (omega arith)

abbrev final : Evm WorldState
final = elim (run test_host 9 machine) [ none ↦ machine | some p ↦ p.0 ]

ran : run test_host 9 machine ≡ some (final, ok [])
unfolding program machine
ran = refl

run-HasWords_example : AreWords final.stack
unfolding machine new_evm
run-HasWords_example = run-HasWords test_host 9 machine {evm' = final} {r = ok []} tt ran

run-endless_example :
    run test_host 50 (new_evm endless [] new_world_state alice bob 0 no_limit) ≡ none
run-endless_example = run-endless test_host 50 0 [] new_world_state alice bob

-- 7 over 2.
exec_arithmetic_example :
    (exec test_host add (set_stack (7 ∷ 2 ∷ []) machine)
      ≡ continue (set_stack ((7 + 2) % word_mod ∷ []) machine))
    × (exec test_host sub (set_stack (7 ∷ 2 ∷ []) machine)
        ≡ continue (set_stack ((7 + word_mod - 2) % word_mod ∷ []) machine))
    × (exec test_host mul (set_stack (7 ∷ 2 ∷ []) machine)
        ≡ continue (set_stack (7 * 2 % word_mod ∷ []) machine))
    × (exec test_host div (set_stack (7 ∷ 2 ∷ []) machine)
        ≡ continue (set_stack ((if 2 == 0 then 0 else 7 / 2) ∷ []) machine))
    × (exec test_host equal (set_stack (7 ∷ 2 ∷ []) machine)
        ≡ continue (set_stack (word_of (7 == 2) ∷ []) machine))
    × (exec test_host less (set_stack (7 ∷ 2 ∷ []) machine)
        ≡ continue (set_stack (word_of (ltb 7 2) ∷ []) machine))
    × (exec test_host greater (set_stack (7 ∷ 2 ∷ []) machine)
        ≡ continue (set_stack (word_of (ltb 2 7) ∷ []) machine))
exec_arithmetic_example = exec_arithmetic test_host 7 2 [] machine (omega arith) (omega arith)

abbrev value_of_key : Result Bytes → ℕ
value_of_key (ok b) = set_bytes b
value_of_key r = 0

hashes_apart : key_hash test_host 1 ≢ key_hash test_host 2
unfolding program
hashes_apart same = let differ : ◌≡◌ {A = ℕ} 1 2 = ap value_of_key same in absurd (omega arith)

-- 5 is stored under key 1, and key 2 is read.
sload-sstore_example :
    (evm' : Evm WorldState) × (exec test_host sstore (set_stack (1 ∷ 5 ∷ []) machine)
      ≡ continue evm')
    × (exec test_host sload (set_stack (1 ∷ []) evm') ≡ continue (set_stack (5 ∷ []) evm'))
    × (v : ℕ) × (exec test_host sload (set_stack (2 ∷ []) machine)
        ≡ continue (set_stack (v ∷ []) machine))
    × (exec test_host sload (set_stack (2 ∷ []) evm') ≡ continue (set_stack (v ∷ []) evm'))
sload-sstore_example =
    sload-sstore test_host 1 5 2 [] machine (omega arith) (omega arith) (omega arith) hashes_apart
