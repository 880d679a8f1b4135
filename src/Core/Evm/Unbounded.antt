-- ===== src/Core/Evm/Unbounded.antt =====
-- What the gas and the memory do not stop: a limit of 2^64 - 1, and a return of no bytes.
use blockz.Prelude.{
  ℕ, zero, suc, ◌+◌, ◌-◌, ◌%◌, ◌^◌, ◌<◌, ◌≡◌, refl, ◌∙◌, [], ◌∷◌, none, arith, length,
}
use blockz.Result.{ok, panic, slice_out_of_range}
use blockz.Types.{Bytes, Address}
use blockz.Core.StateDb.{StateDb}
use blockz.Core.Evm.Word.{set_bytes, mask, uint64}
use blockz.Core.Evm.Stack.{Stack, push, pop}
use blockz.Core.Evm.Memory.Laws.{get-zero_size}
use blockz.Core.Evm.Machine.{
  Host, Evm, continue, return, set_stack, new_evm, decode, consume_gas, is_valid_jump_dest,
  return_data, revert, sha3,
}
use blockz.Core.Evm.Exec.{exec_push, exec_jump, jump_to, exec_return, exec_sha3}
use blockz.Core.Evm.Run.{exec, tick, run}
use blockz.Core.Evm.Loop.{run_on}

-- `JUMPDEST, PUSH1 0, JUMP`
abbrev pub endless : Bytes
endless = 0x5b ∷ 0x60 ∷ 0x00 ∷ 0x56 ∷ []

-- The limit under which the gas check never fails.
abbrev pub no_limit : ℕ
no_limit = 2 ^ 64 - 1

module _ {S : Type 0} ⦃db : StateDb S⦄ (host : Host) where
  -- The three machines that the loop goes through.
  at_pc : ℕ → Stack → ℕ → Evm S → Evm S
  at_pc pc s gas evm = record evm {
    code = endless;
    pc = pc;
    stack = s;
    gas_used = gas;
    gas_limit = no_limit;
  }

  consume_lem :
      (evm : Evm S)
      → evm.gas_limit ≡ no_limit
      → (gas : ℕ) → evm.gas_used ≡ gas
      → consume_gas 1 evm ≡ ok (record evm { gas_used = (gas + 1) % 2 ^ 64 })
  unfolding consume_gas
  consume_lem evm e gas g = ground arith

  tick₀ :
      (gas : ℕ) (evm : Evm S)
      → tick host (at_pc 0 [] gas evm) ≡ continue (at_pc 1 [] ((gas + 1) % 2 ^ 64) evm)
  unfolding tick at_pc exec decode
  tick₀ gas evm = rw (consume_lem (at_pc 0 [] gas evm) refl gas refl)

  tick₁ :
      (gas : ℕ) (evm : Evm S)
      → tick host (at_pc 1 [] gas evm) ≡ continue (at_pc 3 (0 ∷ []) ((gas + 1) % 2 ^ 64) evm)
  unfolding tick at_pc exec decode exec_push push set_bytes mask
  tick₁ gas evm = rw (consume_lem (at_pc 1 [] gas evm) refl gas refl)

  tick₃ :
      (gas : ℕ) (evm : Evm S)
      → tick host (at_pc 3 (0 ∷ []) gas evm) ≡ continue (at_pc 0 [] ((gas + 1) % 2 ^ 64) evm)
  unfolding tick at_pc exec decode exec_jump jump_to pop is_valid_jump_dest
  tick₃ gas evm = rw (consume_lem (at_pc 3 (0 ∷ []) gas evm) refl gas refl)

  endless_runs :
      (fuel gas : ℕ) (evm : Evm S)
      → (run host fuel (at_pc 0 [] gas evm) ≡ none)
        × (run host fuel (at_pc 1 [] gas evm) ≡ none)
        × (run host fuel (at_pc 3 (0 ∷ []) gas evm) ≡ none)
  endless_runs zero gas evm = unfold run in (refl, refl, refl)
  endless_runs (suc fuel) gas evm =
      let (r₀, r₁, r₃) = endless_runs fuel ((gas + 1) % 2 ^ 64) evm in
      (
        run_on host fuel (at_pc 0 [] gas evm) (unfold at_pc in refl) (tick₀ gas evm) ∙ r₁,
        run_on host fuel (at_pc 1 [] gas evm) (unfold at_pc in refl) (tick₁ gas evm) ∙ r₃,
        run_on host fuel (at_pc 3 (0 ∷ []) gas evm) (unfold at_pc in refl) (tick₃ gas evm) ∙ r₀,
      )

  -- With the gas limit 2^64 - 1 the counter wraps before it exceeds the limit, and the program
  -- `JUMPDEST, PUSH1 0, JUMP` does not end: no number of rounds makes `Run` return.
  pub run-endless :
      (fuel value : ℕ) (call_data : Bytes) (state : S) (contract caller : Address)
      → run host fuel (new_evm endless call_data state contract caller value no_limit) ≡ none
  unfolding new_evm at_pc
  run-endless fuel value call_data state contract caller =
      (endless_runs fuel 0 (new_evm endless call_data state contract caller value no_limit)).0

  -- `RETURN`, `REVERT` and `SHA3` of no bytes at a 64-bit offset beyond the memory make a panic,
  -- since a size of 0 grows no memory and the slice is taken all the same.
  pub exec_empty_slice :
      (offset : ℕ) (s : Stack) (evm : Evm S)
      → offset < 2 ^ 64
      → length evm.memory < offset
      → (exec host return_data (set_stack (offset ∷ 0 ∷ s) evm)
          ≡ return (set_stack (offset ∷ 0 ∷ s) evm) (panic slice_out_of_range))
        × (exec host revert (set_stack (offset ∷ 0 ∷ s) evm)
            ≡ return (set_stack (offset ∷ 0 ∷ s) evm) (panic slice_out_of_range))
        × (exec host sha3 (set_stack (offset ∷ 0 ∷ s) evm)
            ≡ return (set_stack (offset ∷ 0 ∷ s) evm) (panic slice_out_of_range))
  unfolding exec exec_return exec_sha3 pop
  exec_empty_slice offset s evm small beyond =
      let same : uint64 offset ≡ offset = omega arith in
      let fault = get-zero_size host.max_alloc offset evm.memory small beyond in
      (rw (same, fault), rw (same, fault), rw (same, fault))
