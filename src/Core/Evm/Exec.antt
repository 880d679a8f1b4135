-- ===== src/Core/Evm/Exec.antt =====
-- The cases of the switch in `Run`, each as a function on the machine behind the opcode.
use Prim.Native.Nat.{bit_and, bit_or}
use blockz.Prelude.{
  ℕ, ◌+◌, ◌-◌, ◌*◌, ◌/◌, ◌%◌, ◌^◌, [], ◌∷◌, ◌++◌, if◌then◌else◌, ◌==◌, ltb, leb, length, get_or,
  take, drop, replicate, ℤ, pos, sub_ℕ,
}
use blockz.Result.{
  Result, ok, err, ◌>>=◌, push_out_of_bounds, dup_out_of_bounds, swap_out_of_bounds, invalid_jump,
}
use blockz.Types.{Bytes, Hash}
use blockz.Core.StateDb.{StateDb, stored}
use blockz.Core.Evm.Word.{uint64, set_bytes, bytes_of, left_pad}
use blockz.Core.Evm.Stack.{push, pop, swap}
use blockz.Core.Evm.Memory.{Memory, set, set32, get}
use blockz.Core.Evm.Machine.{
  Op, add, sub, mul, div, equal, less, greater, and_bits, or_bits, Host, Evm, Flow, continue,
  return, is_valid_jump_dest, set_stack, try, flag,
}

-- The value of an operation on two popped words, the upper one first.
unfoldable pub binary_value : Op → ℕ → ℕ → ℤ
binary_value add x y = pos (x + y)
binary_value sub x y = sub_ℕ x y
binary_value mul x y = pos (x * y)
binary_value div x y = if y == 0 then pos 0 else pos (x / y)
binary_value equal x y = flag (x == y)
binary_value less x y = flag (ltb x y)
binary_value greater x y = flag (ltb y x)
binary_value and_bits x y = pos (bit_and x y)
binary_value or_bits x y = pos (bit_or x y)
binary_value _ x y = pos 0

-- `copy(res, callData[offset:])` into 32 zero bytes
unfoldable pub call_data_word : Bytes → ℕ → Bytes
call_data_word call_data offset =
    if ltb offset (length call_data)
    then take 32 (drop offset call_data ++ replicate 32 0)
    else replicate 32 0

-- The hash under which a word is a storage key.
unfoldable pub key_hash : Host → ℕ → Result Hash
unfolding left_pad bytes_of
key_hash host key = left_pad (bytes_of key) >>= λ padded. ok (host.sha256 padded)

-- The bytes that are stored for a word; 0 has one byte.
unfoldable pub value_bytes : ℕ → Bytes
unfolding bytes_of
value_bytes val = let b = bytes_of val in if length b == 0 then 0 ∷ [] else b

module _ {S : Type 0} ⦃db : StateDb S⦄ (host : Host) where
  -- `x, y := Pop(), Pop(); Push(f(x, y))`
  unfoldable pub exec_binary : Op → Evm S → Flow S
  exec_binary op evm =
      let (x, s) = pop evm.stack in
      let (y, s') = pop s in continue (set_stack (push (binary_value op x y) s') evm)

  unfoldable pub exec_push : ℕ → Evm S → Flow S
  exec_push size evm =
      if ltb (length evm.code) ((evm.pc + size) % 2 ^ 64)
      then return evm (err push_out_of_bounds)
      else continue (record evm {
        stack = push (pos (set_bytes (take size (drop evm.pc evm.code)))) evm.stack;
        pc = (evm.pc + size) % 2 ^ 64;
      })

  unfoldable pub exec_dup : ℕ → Evm S → Flow S
  exec_dup n evm =
      if ltb (length evm.stack) n
      then return evm (err dup_out_of_bounds)
      else continue (set_stack (push (pos (get_or evm.stack (n - 1) 0)) evm.stack) evm)

  unfoldable pub exec_swap : ℕ → Evm S → Flow S
  exec_swap n evm =
      if leb (length evm.stack) n
      then return evm (err swap_out_of_bounds)
      else continue (set_stack (swap n evm.stack) evm)

  unfoldable pub exec_is_zero : Evm S → Flow S
  exec_is_zero evm = let (x, s) = pop evm.stack in continue (set_stack (push (flag (x == 0)) s) evm)

  unfoldable pub exec_sha3 : Evm S → Flow S
  exec_sha3 evm =
      let (offset, s) = pop evm.stack in
      let (size, s') = pop s in
      try evm (get host.max_alloc (uint64 offset) (uint64 size) evm.memory)
        λ (res : Bytes × Memory).
          continue (record evm {
            stack = push (pos (set_bytes (host.keccak256 res.0))) s';
            memory = res.1;
          })

  unfoldable pub exec_mload : Evm S → Flow S
  exec_mload evm =
      let (offset, s) = pop evm.stack in
      try evm (get host.max_alloc (uint64 offset) 32 evm.memory) λ (res : Bytes × Memory).
        continue (record evm { stack = push (pos (set_bytes res.0)) s; memory = res.1 })

  unfoldable pub exec_mstore : Evm S → Flow S
  exec_mstore evm =
      let (offset, s) = pop evm.stack in
      let (val, s') = pop s in
      try evm (set32 host.max_alloc (uint64 offset) val evm.memory)
        λ (m : Memory). continue (record evm { stack = s'; memory = m })

  unfoldable pub exec_mstore8 : Evm S → Flow S
  exec_mstore8 evm =
      let (offset, s) = pop evm.stack in
      let (val, s') = pop s in
      try evm (set host.max_alloc (uint64 offset) 1 (uint64 val % 256 ∷ []) evm.memory)
        λ (m : Memory). continue (record evm { stack = s'; memory = m })

  unfoldable pub exec_sload : Evm S → Flow S
  exec_sload evm =
      let (key, s) = pop evm.stack in
      try evm (key_hash host key) λ (hash : Hash). continue (
        set_stack
          (push (pos (set_bytes (stored (db.get_account_state evm.state evm.contract hash)))) s)
          evm)

  unfoldable pub exec_sstore : Evm S → Flow S
  exec_sstore evm =
      let (key, s) = pop evm.stack in
      let (val, s') = pop s in
      try evm (key_hash host key) λ (hash : Hash). continue (record evm {
        stack = s';
        state = db.set_account_state evm.state evm.contract hash (value_bytes val);
      })

  unfoldable pub exec_calldataload : Evm S → Flow S
  exec_calldataload evm =
      let (offset, s) = pop evm.stack in
      continue
        (set_stack (push (pos (set_bytes (call_data_word evm.call_data (uint64 offset)))) s) evm)

  -- `if !isValidJumpDest(dest) { return … }; evm.pc = dest`
  unfoldable pub jump_to : ℕ → Evm S → Flow S
  jump_to dest evm =
      if is_valid_jump_dest evm.code dest
      then continue (record evm { pc = dest })
      else return evm (err invalid_jump)

  unfoldable pub exec_jump : Evm S → Flow S
  exec_jump evm = let (dest, s) = pop evm.stack in jump_to (uint64 dest) (set_stack s evm)

  unfoldable pub exec_jumpi : Evm S → Flow S
  exec_jumpi evm =
      let (dest, s) = pop evm.stack in
      let (cond, s') = pop s in
      if cond == 0 then continue (set_stack s' evm) else jump_to (uint64 dest) (set_stack s' evm)

  -- `RETURN` and `REVERT` differ in what `Run` returns with the data.
  unfoldable pub exec_return : (Bytes → Result Bytes) → Evm S → Flow S
  exec_return outcome evm =
      let (offset, s) = pop evm.stack in
      let (size, s') = pop s in
      try evm (get host.max_alloc (uint64 offset) (uint64 size) evm.memory)
        λ (res : Bytes × Memory).
          return (record evm { stack = s'; memory = res.1; ret_data = res.0 }) (outcome res.0)
