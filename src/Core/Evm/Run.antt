-- ===== src/Core/Evm/Run.antt =====
-- The switch and the loop of `Run`.
use blockz.Prelude.{
  ℕ, zero, suc, ◌+◌, ◌%◌, ◌^◌, true, false, [], Option, none, some, ltb, length, get_or, pos,
}
use blockz.Result.{Result, ok, err, reverted}
use blockz.Types.{Bytes}
use blockz.Core.StateDb.{StateDb}
use blockz.Core.Evm.Stack.{push, pop}
use blockz.Core.Evm.Machine.{
  Op, push_bytes, dup_at, swap_at, discard, is_zero, sha3, mload, mstore, mstore8, sload, sstore,
  callvalue, calldataload, calldatasize, jump, jumpi, jumpdest, return_data, revert, stop,
  unsupported, decode, Host, Evm, Flow, continue, return, consume_gas, set_stack, try,
}
use blockz.Core.Evm.Exec.{
  exec_binary, exec_push, exec_dup, exec_swap, exec_is_zero, exec_sha3, exec_mload, exec_mstore,
  exec_mstore8, exec_sload, exec_sstore, exec_calldataload, exec_jump, exec_jumpi, exec_return,
}

module _ {S : Type 0} ⦃db : StateDb S⦄ (host : Host) where
  unfoldable pub exec : Op → Evm S → Flow S
  exec (push_bytes size) evm = exec_push host size evm
  exec (dup_at n) evm = exec_dup host n evm
  exec (swap_at n) evm = exec_swap host n evm
  exec discard evm = continue (set_stack (pop evm.stack).1 evm)
  exec is_zero evm = exec_is_zero host evm
  exec sha3 evm = exec_sha3 host evm
  exec mload evm = exec_mload host evm
  exec mstore evm = exec_mstore host evm
  exec mstore8 evm = exec_mstore8 host evm
  exec sload evm = exec_sload host evm
  exec sstore evm = exec_sstore host evm
  exec callvalue evm = continue (set_stack (push (pos evm.value) evm.stack) evm)
  exec calldataload evm = exec_calldataload host evm
  exec calldatasize evm = continue (set_stack (push (pos (length evm.call_data)) evm.stack) evm)
  exec jump evm = exec_jump host evm
  exec jumpi evm = exec_jumpi host evm
  exec jumpdest evm = continue evm
  exec return_data evm = exec_return host ok evm
  exec revert evm = exec_return host (λ b. err (reverted b)) evm
  exec stop evm = return evm (ok [])
  exec unsupported evm = continue evm
  exec op evm = exec_binary host op evm

  -- One round of the loop: the gas, the program counter, the case of the opcode.
  unfoldable pub tick : Evm S → Flow S
  tick evm = try evm (consume_gas 1 evm) λ (charged : Evm S).
      exec (decode (get_or evm.code evm.pc 0)) (record charged { pc = (charged.pc + 1) % 2 ^ 64 })

  -- `Run`, for at most `fuel` rounds; `none` means that it would go on.
  unfoldable pub run : ℕ → Evm S → Option (Evm S × Result Bytes)
  run zero evm = none
  run (suc fuel) evm = elim (ltb evm.pc (length evm.code)) [
    | false ↦ some (evm, ok evm.ret_data)
    | true ↦ elim (tick evm) [ continue evm' ↦ run fuel evm' | return evm' r ↦ some (evm', r) ]
  ]
