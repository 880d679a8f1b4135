-- ===== src/Core/Evm/Gas.antt =====
-- Gas: no case of the switch touches it, it stays within the limit, and it makes the loop end.
use blockz.Prelude.{
  ◌+◌, ◌-◌, ◌%◌, ◌^◌, ◌<◌, ◌≤◌, ◌≡◌, refl, sym, ◌∙◌, ltb, get_or, arith, Bool-cases, inl, inr, ◌⊎◌,
}
use blockz.Result.{Result, ok, err, out_of_gas}
use blockz.Types.{Bytes}
use blockz.Core.StateDb.{StateDb}
use blockz.Core.Evm.Machine.{Op, push_bytes, decode, Host, Evm, Flow, continue, return, consume_gas}
use blockz.Core.Evm.Exec.{
  exec_binary, exec_push, exec_dup, exec_swap, exec_is_zero, exec_sha3, exec_mload, exec_mstore,
  exec_mstore8, exec_sload, exec_sstore, exec_calldataload, jump_to, exec_jump, exec_jumpi,
  exec_return,
}
use blockz.Core.Evm.Run.{exec, tick}

-- The machine behind a round.
abbrev pub after : {S : Type 0} → Flow S → Evm S
after (continue evm) = evm
after (return evm r) = evm

pub Flow-cases :
    {S : Type 0} (f : Flow S)
    → ((evm : Evm S) × (f ≡ continue evm))
      ⊎ ((evm : Evm S) × (r : Result Bytes) × (f ≡ return evm r))
Flow-cases (continue evm) = inl (evm, refl)
Flow-cases (return evm r) = inr (evm, r, refl)

-- The machine once the gas of a round is taken and its opcode is read.
abbrev pub charge : {S : Type 0} → Evm S → Evm S
charge evm = record evm { gas_used = evm.gas_used + 1; pc = (evm.pc + 1) % 2 ^ 64 }

-- What has been charged is covered, and the counter cannot wrap.
pub record IsCharged {S : Type 0} (evm : Evm S) : Type 0 where
  pub covered : evm.gas_used ≤ evm.gas_limit
  pub finite : evm.gas_limit < 2 ^ 64 - 1

module _ {S : Type 0} ⦃db : StateDb S⦄ (host : Host) where
  -- No case of the switch touches the gas or the code.
  pub exec_keeps :
      (op : Op) (evm : Evm S)
      → ((after (exec host op evm)).gas_used ≡ evm.gas_used)
        × ((after (exec host op evm)).gas_limit ≡ evm.gas_limit)
        × ((after (exec host op evm)).code ≡ evm.code)
  unfolding exec exec_binary exec_push exec_dup exec_swap exec_is_zero exec_sha3 exec_mload
      exec_mstore exec_mstore8 exec_sload exec_sstore exec_calldataload jump_to exec_jump exec_jumpi
      exec_return
  exec_keeps (push_bytes n) evm = ground arith
  exec_keeps _ evm = ground arith

  charge_lem :
      (evm : Evm S)
      → evm.gas_used < evm.gas_limit
      → evm.gas_limit < 2 ^ 64
      → consume_gas 1 evm ≡ ok (record evm { gas_used = evm.gas_used + 1 })
  unfolding consume_gas
  charge_lem evm left small = ground arith

  -- A round with gas left is the case of its opcode on the charged machine.
  pub tick-charge :
      (evm : Evm S)
      → evm.gas_used < evm.gas_limit
      → evm.gas_limit < 2 ^ 64
      → tick host evm ≡ exec host (decode (get_or evm.code evm.pc 0)) (charge evm)
  unfolding tick
  tick-charge evm left small = rw (charge_lem evm left small)

  -- With no gas left, a round is the out-of-gas error, and changes nothing.
  pub tick_empty :
      (evm : Evm S)
      → evm.gas_used ≡ evm.gas_limit
      → evm.gas_limit < 2 ^ 64 - 1
      → tick host evm ≡ return evm (err out_of_gas)
  unfolding tick consume_gas
  tick_empty evm none_left small = rw (tick, spent)
    where
      spent : consume_gas 1 evm ≡ err out_of_gas
      spent = ground arith

  -- What one round does to the gas.
  pub tick_gas :
      (evm : Evm S)
      → IsCharged evm
      → IsCharged (after (tick host evm))
        × ((evm' : Evm S)
            → tick host evm ≡ continue evm'
            → (evm'.gas_used ≡ evm.gas_used + 1) × (evm'.gas_limit ≡ evm.gas_limit))
  tick_gas evm h = elim (Bool-cases (ltb evm.gas_used evm.gas_limit)) [
    | inl left ↦
        let e = tick-charge evm (ground arith) (omega arith) in
        let (used, limit, _) = exec_keeps (decode (get_or evm.code evm.pc 0)) (charge evm) in
        (
          rw e (record { covered = ground arith; finite = ground arith }),
          λ evm' eq. let eq' = sym e ∙ eq in (rw eq' at used, rw eq' at limit),
        )
    | inr spent ↦ let e = tick_empty evm (ground arith) h.finite in (rw e h, λ evm' eq. cc e)
  ]
