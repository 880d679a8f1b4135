-- ===== src/Core/Evm/Loop.antt =====
-- The loop of `Run`: how one round unrolls, the rule for invariants, and that it ends.
use blockz.Prelude.{
  ℕ, zero, suc, ◌-◌, ◌<◌, ◌≤◌, ◌≡◌, sym, ◌∙◌, true, false, Option, some, ltb, length, arith,
  Bool-cases, inl, inr, ◌⊎◌,
}
use blockz.Result.{Result, ok}
use blockz.Types.{Bytes}
use blockz.Core.StateDb.{StateDb}
use blockz.Core.Evm.Machine.{Host, Evm, continue, return}
use blockz.Core.Evm.Run.{tick, run}
use blockz.Core.Evm.Gas.{after, Flow-cases, IsCharged, tick_gas}

pub some_pair {ℓ κ} :
    {A : Type ℓ} {B : Type κ} {a a' : A} {b b' : B}
    → ◌≡◌ {A = Option (A × B)} (some (a, b)) (some (a', b'))
    → (a ≡ a') × (b ≡ b')
some_pair h = (cc, cc)

module _ {S : Type 0} ⦃db : StateDb S⦄ (host : Host) where
  run_past :
      (fuel : ℕ) (evm : Evm S)
      → ltb evm.pc (length evm.code) ≡ false
      → run host (suc fuel) evm ≡ some (evm, ok evm.ret_data)
  unfolding run
  run_past fuel evm past = rw (run, past)

  pub run_on :
      (fuel : ℕ) (evm : Evm S) {evm₁ : Evm S}
      → ltb evm.pc (length evm.code) ≡ true
      → tick host evm ≡ continue evm₁
      → run host (suc fuel) evm ≡ run host fuel evm₁
  unfolding run
  run_on fuel evm inside on = rw (run, inside, on)

  run_back :
      (fuel : ℕ) (evm : Evm S) {evm₁ : Evm S} {r : Result Bytes}
      → ltb evm.pc (length evm.code) ≡ true
      → tick host evm ≡ return evm₁ r
      → run host (suc fuel) evm ≡ some (evm₁, r)
  unfolding run
  run_back fuel evm inside back = rw (run, inside, back)

  -- A round ends the run, whatever the fuel, in the machine itself or the one behind the round; or it
  -- goes on.
  round :
      (evm : Evm S)
      → ((r : Result Bytes) × ((fuel : ℕ) → run host (suc fuel) evm ≡ some (evm, r)))
        ⊎ (((r : Result Bytes) × ((fuel : ℕ)
                → run host (suc fuel) evm ≡ some (after (tick host evm), r)))
            ⊎ ((evm₁ : Evm S) × (tick host evm ≡ continue evm₁)
                × ((fuel : ℕ) → run host (suc fuel) evm ≡ run host fuel evm₁)))
  round evm = elim (Bool-cases (ltb evm.pc (length evm.code))) [
    | inr past ↦ inl (ok evm.ret_data, λ fuel. run_past fuel evm past)
    | inl inside ↦ elim (Flow-cases (tick host evm)) [
      | inl (evm₁, on) ↦ inr (inr (evm₁, on, λ fuel. run_on fuel evm inside on))
      | inr (evm₁, r, back) ↦ inr (inl (r, λ fuel. rw back (run_back fuel evm inside back)))
    ]
  ]

  -- A rule for every run: what each round keeps holds of the machine that the run ends with.
  pub run_keeps {ℓ} :
      (P : Evm S → Type ℓ)
      → ((evm : Evm S) → P evm → P (after (tick host evm)))
      → (fuel : ℕ) (evm : Evm S) {evm' : Evm S} {r : Result Bytes} → P evm
      → run host fuel evm ≡ some (evm', r)
      → P evm'
  run_keeps P keep zero evm h done = absurd (never done)
    where
      never : {p : Evm S × Result Bytes} → run host zero evm ≡ some p → ⊥
      never e = unfold run in cc e
  run_keeps P keep (suc fuel) evm h done = elim (round evm) [
    | inl (r, all) ↦ let e = some_pair (sym (all fuel) ∙ done) in rw e.0 at h
    | inr (inl (r, all)) ↦ let e = some_pair (sym (all fuel) ∙ done) in rw e.0 at (keep evm h)
    | inr (inr (evm₁, on, all)) ↦
        run_keeps P keep fuel evm₁ (rw on at (keep evm h)) (sym (all fuel) ∙ done)
  ]

  -- More fuel than is needed changes nothing.
  pub run_more :
      (f g : ℕ) (evm : Evm S) {p : Evm S × Result Bytes}
      → f ≤ g
      → run host f evm ≡ some p
      → run host g evm ≡ some p
  run_more zero g evm le done = unfold run in cc done
  run_more (suc f) zero evm le done = absurd (omega arith)
  run_more (suc f) (suc g) evm le done = elim (round evm) [
    | inl (r, all) ↦ all g ∙ sym (all f) ∙ done
    | inr (inl (r, all)) ↦ all g ∙ sym (all f) ∙ done
    | inr (inr (evm₁, on, all)) ↦ all g ∙ run_more f g evm₁ (omega arith) (sym (all f) ∙ done)
  ]

  -- A gas limit below 2^64 - 1 that covers the gas used so far makes `Run` return: one round for
  -- each unit of gas that is left, and one more, is enough. The gas that was used is then within
  -- the limit.
  pub run_terminates :
      (fuel : ℕ) (evm : Evm S)
      → IsCharged evm
      → evm.gas_limit - evm.gas_used < fuel
      → (evm' : Evm S) × (r : Result Bytes) × (run host fuel evm ≡ some (evm', r))
        × (evm'.gas_used ≤ evm'.gas_limit)
  run_terminates zero evm h enough = absurd (omega arith)
  run_terminates (suc fuel) evm h enough = elim (round evm) [
    | inl (r, all) ↦ (evm, r, all fuel, h.covered)
    | inr (inl (r, all)) ↦ (after (tick host evm), r, all fuel, (tick_gas host evm h).0.covered)
    | inr (inr (evm₁, on, all)) ↦
        let (valid, gas) = tick_gas host evm h in
        let (used, limit) = gas evm₁ on in
        let valid₁ : IsCharged evm₁ = rw on at valid in
        let (evm', r, done, fine) = run_terminates fuel evm₁ valid₁ (omega arith) in
        (evm', r, all fuel ∙ done, fine)
  ]
