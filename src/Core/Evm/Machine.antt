-- ===== src/Core/Evm/Machine.antt =====
-- The machine's state, the opcodes, and one step of `Run`.
use blockz.Prelude.{
  ℕ, ◌+◌, ◌-◌, ◌%◌, ◌^◌, Bool, true, false, ◌&&◌, [], if◌then◌else◌, ◌==◌, ltb, leb, length, get_or,
  ℤ, pos,
}
use blockz.Result.{Result, ok, err, panic, out_of_gas}
use blockz.Types.{Bytes, Address, Hash}
use blockz.Core.Evm.Stack.{Stack}
use blockz.Core.Evm.Memory.{Memory}

-- The code's switch on the byte: each case of it, and the default.
pub data Op : Type 0 where
  push_bytes dup_at swap_at : ℕ → Op
  discard add sub mul div equal less greater is_zero and_bits or_bits sha3 : Op
  mload mstore mstore8 sload sstore callvalue calldataload calldatasize : Op
  jump jumpi jumpdest return_data revert stop unsupported : Op

-- The number of the opcode to its case; a `PUSH`, `DUP` or `SWAP` with its count.
unfoldable pub decode : ℕ → Op
decode op =
    if leb 0x60 op && leb op 0x7f
    then push_bytes (op - 0x60 + 1)
    else (if leb 0x80 op && leb op 0x8f
        then dup_at (op - 0x80 + 1)
        else (if leb 0x90 op && leb op 0x9f
            then swap_at (op - 0x90 + 1)
            else (if op == 0x50
                then discard
                else (if op == 0x01
                    then add
                    else (if op == 0x03
                        then sub
                        else (if op == 0x02
                            then mul
                            else (if op == 0x04
                                then div
                                else (if op == 0x14
                                    then equal
                                    else (if op == 0x10
                                        then less
                                        else (if op == 0x11
                                            then greater
                                            else (if op == 0x15
                                                then is_zero
                                                else (if op == 0x16
                                                    then and_bits
                                                    else (if op == 0x17
                                                        then or_bits
                                                        else (if op == 0x20
                                                            then sha3
                                                            else (if op == 0x51
                                                            then mload
                                                            else (if op == 0x52
                                                            then mstore
                                                            else (if op == 0x53
                                                            then mstore8
                                                            else (if op == 0x54
                                                            then sload
                                                            else (if op == 0x55
                                                            then sstore
                                                            else (if op == 0x34
                                                            then callvalue
                                                            else (if op == 0x35
                                                            then calldataload
                                                            else (if op == 0x36
                                                            then calldatasize
                                                            else (if op == 0x56
                                                            then jump
                                                            else (if op == 0x57
                                                            then jumpi
                                                            else (if op == 0x5b
                                                            then jumpdest
                                                            else (if op == 0xf3
                                                            then return_data
                                                            else (if op == 0xfd
                                                            then revert
                                                            else (if op == 0x00
                                                            then stop
                                                            else unsupported))))))))))))))))))))))))))))

-- What the machine takes from outside: the longest slice that the Go runtime makes, and the two hash
-- functions.
pub record Host : Type 0 where
  pub max_alloc : ℕ
  pub sha256 : Bytes → Hash
  pub keccak256 : Bytes → Bytes

pub record Evm (S : Type 0) : Type 0 where
  pub code : Bytes
  pub pc : ℕ
  pub stack : Stack
  pub memory : Memory
  pub state : S
  pub contract : Address
  pub caller : Address
  pub gas_used : ℕ
  pub gas_limit : ℕ
  pub ret_data : Bytes
  pub call_data : Bytes
  pub value : ℕ

-- `NewEVM`; a nil value is 0 already in the caller.
unfoldable pub new_evm : {S : Type 0} → Bytes → Bytes → S → Address → Address → ℕ → ℕ → Evm S
new_evm code call_data state contract caller value gas_limit = record {
  code = code;
  pc = 0;
  stack = [];
  memory = [];
  state = state;
  contract = contract;
  caller = caller;
  gas_used = 0;
  gas_limit = gas_limit;
  ret_data = [];
  call_data = call_data;
  value = value;
}

-- A case of the switch goes on to the next round of the loop, or returns from `Run`.
pub data Flow (S : Type 0) : Type 0 where
  continue : Evm S → Flow S
  return : Evm S → Result Bytes → Flow S

-- `consumeGas`
unfoldable pub consume_gas : {S : Type 0} → ℕ → Evm S → Result (Evm S)
consume_gas amount evm =
    if ltb evm.gas_limit ((evm.gas_used + amount) % 2 ^ 64)
    then err out_of_gas
    else ok (record evm { gas_used = (evm.gas_used + amount) % 2 ^ 64 })

-- `isValidJumpDest`
unfoldable pub is_valid_jump_dest : Bytes → ℕ → Bool
is_valid_jump_dest code dest = if leb (length code) dest then false else get_or code dest 0 == 0x5b

-- A pop of the stack, as an update of the machine.
abbrev pub set_stack : {S : Type 0} → Stack → Evm S → Evm S
set_stack s evm = record evm { stack = s }

-- A case that makes a panic leaves the machine as it was.
abbrev pub try {ℓ} : {S : Type 0} {A : Type ℓ} → Evm S → Result A → (A → Flow S) → Flow S
try evm (ok a) f = f a
try evm (err e) f = return evm (err e)
try evm (panic p) f = return evm (panic p)

abbrev pub flag : Bool → ℤ
flag true = pos 1
flag false = pos 0
