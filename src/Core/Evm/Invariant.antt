-- ===== src/Core/Evm/Invariant.antt =====
-- What every round keeps: the stack holds 256-bit words, and an account state that the storage
-- writes keep.
use blockz.Prelude.{ℕ, ◌+◌, ◌%◌, ◌^◌, ◌≡◌, Bool, true, false, some, if◌then◌else◌, ltb, get_or}
use blockz.Result.{Result, ok, err, panic, out_of_gas}
use blockz.Types.{Bytes, Address, Hash}
use blockz.Core.StateDb.{StateDb}
use blockz.Core.Evm.Stack.{AreWords, pop, push-AreWords, pop-AreWords, swap-AreWords}
use blockz.Core.Evm.Machine.{
  Op, push_bytes, dup_at, swap_at, discard, is_zero, sha3, mload, mstore, mstore8, sload, sstore,
  callvalue, calldataload, calldatasize, jump, jumpi, jumpdest, return_data, revert, stop,
  unsupported, decode, Host, Evm, Flow, continue, return, consume_gas, try, is_valid_jump_dest,
}
use blockz.Core.Evm.Exec.{
  exec_binary, exec_push, exec_dup, exec_swap, exec_is_zero, exec_sha3, exec_mload, exec_mstore,
  exec_mstore8, exec_sload, exec_sstore, exec_calldataload, jump_to, exec_jump, exec_jumpi,
  exec_return,
}
use blockz.Core.Evm.Run.{exec, tick, run}
use blockz.Core.Evm.Gas.{after}
use blockz.Core.Evm.Loop.{run_keeps}

-- The machine behind a round satisfies `P`, whether the loop goes on or not.
pub data All {ℓ} {S : Type 0} (P : Evm S → Type ℓ) : Flow S → Type ℓ where
  continues : {evm : Evm S} → P evm → All P (continue evm)
  returns : {evm : Evm S} {r : Result Bytes} → P evm → All P (return evm r)

pub All-after {ℓ} : {S : Type 0} {P : Evm S → Type ℓ} {f : Flow S} → All P f → P (after f)
All-after (continues h) = h
All-after (returns h) = h

pub try_keeps {ℓ κ} :
    {S : Type 0} {A : Type ℓ} {P : Evm S → Type κ} (evm : Evm S) (r : Result A) (f : A → Flow S)
    → P evm
    → ((a : A) → All P (f a))
    → All P (try evm r f)
try_keeps evm (ok a) f h k = k a
try_keeps evm (err e) f h k = returns h
try_keeps evm (panic p) f h k = returns h

pub if_keeps {ℓ} :
    {S : Type 0} {P : Evm S → Type ℓ} (b : Bool) (x y : Flow S)
    → All P x
    → All P y
    → All P (if b then x else y)
if_keeps true x y hx hy = hx
if_keeps false x y hx hy = hy

module _ {S : Type 0} ⦃db : StateDb S⦄ (host : Host) where
  abbrev pub HasWords : Evm S → Type 0
  HasWords evm = AreWords evm.stack

  jump_to_keeps {ℓ} :
      {P : Evm S → Type ℓ} (dest : ℕ) (evm : Evm S)
      → P (record evm { pc = dest })
      → P evm
      → All P (jump_to host dest evm)
  unfolding jump_to
  jump_to_keeps dest evm h k =
      if_keeps (is_valid_jump_dest evm.code dest) _ _ (continues h) (returns k)

  module _ (evm : Evm S) (h : AreWords evm.stack) where
    popped : AreWords (pop evm.stack).1
    popped = (pop-AreWords evm.stack h).1

    popped_two : AreWords (pop (pop evm.stack).1).1
    popped_two = (pop-AreWords _ popped).1

    exec-HasWords : (op : Op) → All HasWords (exec host op evm)
    unfolding exec exec_binary exec_push exec_dup exec_swap exec_is_zero exec_sha3 exec_mload
        exec_mstore exec_mstore8 exec_sload exec_sstore exec_calldataload exec_jump exec_jumpi
        exec_return
    exec-HasWords (push_bytes n) = if_keeps _ _ _ (returns h) (continues (push-AreWords _ _ h))
    exec-HasWords (dup_at n) = if_keeps _ _ _ (returns h) (continues (push-AreWords _ _ h))
    exec-HasWords (swap_at n) = if_keeps _ _ _ (returns h) (continues (swap-AreWords n _ h))
    exec-HasWords discard = continues popped
    exec-HasWords is_zero = continues (push-AreWords _ _ popped)
    exec-HasWords sha3 = try_keeps _ _ _ h (λ r. continues (push-AreWords _ _ popped_two))
    exec-HasWords mload = try_keeps _ _ _ h (λ r. continues (push-AreWords _ _ popped))
    exec-HasWords mstore = try_keeps _ _ _ h (λ r. continues popped_two)
    exec-HasWords mstore8 = try_keeps _ _ _ h (λ r. continues popped_two)
    exec-HasWords sload = try_keeps _ _ _ h (λ r. continues (push-AreWords _ _ popped))
    exec-HasWords sstore = try_keeps _ _ _ h (λ r. continues popped_two)
    exec-HasWords callvalue = continues (push-AreWords _ _ h)
    exec-HasWords calldataload = continues (push-AreWords _ _ popped)
    exec-HasWords calldatasize = continues (push-AreWords _ _ h)
    exec-HasWords jump = jump_to_keeps _ _ popped popped
    exec-HasWords jumpi =
        if_keeps _ _ _ (continues popped_two) (jump_to_keeps _ _ popped_two popped_two)
    exec-HasWords jumpdest = continues h
    exec-HasWords return_data = try_keeps _ _ _ h (λ r. returns popped_two)
    exec-HasWords revert = try_keeps _ _ _ h (λ r. returns popped_two)
    exec-HasWords stop = returns h
    exec-HasWords unsupported = continues h
    exec-HasWords _ = continues (push-AreWords _ _ popped_two)

  -- The gas of a round, then the case: what the cases keep, a round keeps, as long as it does not
  -- look at the gas and the program counter.
  pub tick_keeps {ℓ} :
      (P : Evm S → Type ℓ)
      → ((evm : Evm S) (gas at : ℕ) → P evm → P (record evm { gas_used = gas; pc = at }))
      → ((op : Op) (evm : Evm S) → P evm → All P (exec host op evm))
      → (evm : Evm S) → P evm
      → P (after (tick host evm))
  unfolding tick consume_gas
  tick_keeps P blind keep evm h =
      All-after (try_charged (ltb evm.gas_limit ((evm.gas_used + 1) % 2 ^ 64)))
    where
      try_charged :
          (b : Bool)
          → All P (
              try evm
                (if b
                  then err out_of_gas
                  else ok (record evm { gas_used = (evm.gas_used + 1) % 2 ^ 64 }))
                λ (charged : Evm S).
                  exec host
                    (decode (get_or evm.code evm.pc 0))
                    (record charged { pc = (charged.pc + 1) % 2 ^ 64 }))
      try_charged true = returns h
      try_charged false = keep _ _ (blind evm _ _ h)

  -- Every element of the stack is a 256-bit word at the end of a run that starts so, whatever
  -- the run comes to.
  pub run-HasWords :
      (fuel : ℕ) (evm : Evm S) {evm' : Evm S} {r : Result Bytes}
      → AreWords evm.stack
      → run host fuel evm ≡ some (evm', r)
      → AreWords evm'.stack
  run-HasWords fuel evm h done =
      run_keeps host HasWords
        (tick_keeps HasWords (λ evm gas at k. k) (λ op evm k. exec-HasWords evm k op)) fuel evm h
        done

  -- A property of the account state that every storage write keeps.
  module _ {ℓ} (P : S → Type ℓ)
      (keep : (s : S) (a : Address) (k : Hash) (v : Bytes)
        → P s
        → P (db.set_account_state s a k v)) where
    abbrev pub HasState : Evm S → Type ℓ
    HasState evm = P evm.state

    exec-HasState : (op : Op) (evm : Evm S) → P evm.state → All HasState (exec host op evm)
    unfolding exec exec_binary exec_push exec_dup exec_swap exec_is_zero exec_sha3 exec_mload
        exec_mstore exec_mstore8 exec_sload exec_sstore exec_calldataload exec_jump exec_jumpi
        exec_return
    exec-HasState (push_bytes n) evm h = if_keeps _ _ _ (returns h) (continues h)
    exec-HasState (dup_at n) evm h = if_keeps _ _ _ (returns h) (continues h)
    exec-HasState (swap_at n) evm h = if_keeps _ _ _ (returns h) (continues h)
    exec-HasState sha3 evm h = try_keeps _ _ _ h (λ r. continues h)
    exec-HasState mload evm h = try_keeps _ _ _ h (λ r. continues h)
    exec-HasState mstore evm h = try_keeps _ _ _ h (λ r. continues h)
    exec-HasState mstore8 evm h = try_keeps _ _ _ h (λ r. continues h)
    exec-HasState sload evm h = try_keeps _ _ _ h (λ r. continues h)
    exec-HasState sstore evm h = try_keeps _ _ _ h (λ k. continues (keep _ _ k _ h))
    exec-HasState jump evm h = jump_to_keeps _ _ h h
    exec-HasState jumpi evm h = if_keeps _ _ _ (continues h) (jump_to_keeps _ _ h h)
    exec-HasState return_data evm h = try_keeps _ _ _ h (λ r. returns h)
    exec-HasState revert evm h = try_keeps _ _ _ h (λ r. returns h)
    exec-HasState stop evm h = returns h
    exec-HasState _ evm h = continues h

    -- What every storage write keeps of the account state, a run keeps, however it ends.
    pub run-state :
        (fuel : ℕ) (evm : Evm S) {evm' : Evm S} {r : Result Bytes}
        → P evm.state
        → run host fuel evm ≡ some (evm', r)
        → P evm'.state
    run-state fuel evm h done =
        run_keeps host HasState
          (tick_keeps HasState (λ evm gas at k. k) (λ op evm k. exec-HasState op evm k)) fuel evm h
          done
