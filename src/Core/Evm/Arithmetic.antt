-- ===== src/Core/Evm/Arithmetic.antt =====
-- The arithmetic and comparison opcodes against arithmetic modulo 2^256.
use blockz.Prelude.{
  ℕ, ◌+◌, ◌-◌, ◌*◌, ◌/◌, ◌%◌, ◌<◌, ◌≡◌, refl, ap, ◌∙◌, Bool, true, false, ◌∷◌, if◌then◌else◌, ltb,
  ◌==◌, arith, Bool-cases, inl, inr,
}
use native.Mathlib.Nat.{div-le_self}
use blockz.Core.StateDb.{StateDb}
use blockz.Core.Evm.Word.{mask, mask_id, mask-sub, word_mod}
use blockz.Core.Evm.Stack.{Stack, push, pop}
use blockz.Core.Evm.Machine.{
  Host, Evm, Op, continue, set_stack, flag, add, sub, mul, div, equal, less, greater,
}
use blockz.Core.Evm.Exec.{exec_binary, binary_value}
use blockz.Core.Evm.Run.{exec}

-- What an opcode computes of the upper and the lower word, as a number below 2^256.
abbrev pub word_of : Bool → ℕ
word_of true = 1
word_of false = 0

div_value : (x y : ℕ) → x < word_mod → mask (binary_value div x y) ≡ (if y == 0 then 0 else x / y)
unfolding binary_value mask
div_value x y hx = elim (Bool-cases (y == 0)) [
  | inl zero_divisor ↦ rw (binary_value, zero_divisor)
  | inr fine ↦ rw (binary_value, fine) (mask_id (x / y) (omega (arith, div-le_self x y)))
]

flag_value : (b : Bool) → mask (flag b) ≡ word_of b
unfolding mask
flag_value true = refl
flag_value false = refl

module _ {S : Type 0} ⦃db : StateDb S⦄ (host : Host) (x y : ℕ) (s : Stack) (evm : Evm S) where
  -- The case of `op` on a stack with `x` on top of `y` goes on with `z` in place of the two.
  abbrev pub Computes : Op → ℕ → Type 0
  Computes op z = exec host op (set_stack (x ∷ y ∷ s) evm) ≡ continue (set_stack (z ∷ s) evm)

  Computes-of :
      (z : ℕ) (op : Op)
      → ((e : Evm S) → exec host op e ≡ exec_binary host op e)
      → mask (binary_value op x y) ≡ z
      → Computes op z
  unfolding exec_binary push pop
  Computes-of z op binary value =
      binary (set_stack (x ∷ y ∷ s) evm) ∙ ap (λ (v : ℕ). continue (set_stack (v ∷ s) evm)) value

  -- On words the opcodes compute modulo 2^256; a division by zero gives 0, a comparison 1 or 0, and
  -- the first operand is the one on top of the stack.
  pub exec_arithmetic :
      x < word_mod
      → y < word_mod
      → Computes add ((x + y) % word_mod)
        × Computes sub ((x + word_mod - y) % word_mod)
        × Computes mul (x * y % word_mod)
        × Computes div (if y == 0 then 0 else x / y)
        × Computes equal (word_of (x == y))
        × Computes less (word_of (ltb x y))
        × Computes greater (word_of (ltb y x))
  unfolding exec binary_value
  exec_arithmetic hx hy = (
    Computes-of _ add (λ e. refl) (unfold mask in refl),
    Computes-of _ sub (λ e. refl) (mask-sub x y hx hy),
    Computes-of _ mul (λ e. refl) (unfold mask in refl),
    Computes-of _ div (λ e. refl) (div_value x y hx),
    Computes-of _ equal (λ e. refl) (flag_value (x == y)),
    Computes-of _ less (λ e. refl) (flag_value (ltb x y)),
    Computes-of _ greater (λ e. refl) (flag_value (ltb y x)),
  )
