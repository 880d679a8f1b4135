-- ===== src/Core/Evm/Stack.antt =====
-- The operand stack: a list, last pushed first.
use blockz.Prelude.{ℕ, zero, suc, ◌<◌, List, [], ◌∷◌, get_or, set, ℤ, arith}
use blockz.Core.Evm.Word.{mask, mask-lt, word_mod}

abbrev pub Stack : Type 0
Stack = List ℕ

-- `Push` keeps the low 256 bits.
unfoldable pub push : ℤ → Stack → Stack
unfolding mask
push v s = mask v ∷ s

-- `Pop`: an empty stack gives 0.
unfoldable pub pop : Stack → ℕ × Stack
pop [] = (0, [])
pop (v ∷ s) = (v, s)

-- `Peek`, `n` below the top
unfoldable pub peek : ℕ → Stack → ℕ
peek n s = get_or s n 0

-- Exchanges the top with the element `n` below it, which is there.
unfoldable pub swap : ℕ → Stack → Stack
swap n s = set (set s 0 (get_or s n 0)) n (get_or s 0 0)

-- Every element is a 256-bit word.
abbrev pub AreWords : Stack → Type 0
AreWords [] = Unit
AreWords (v ∷ s) = (v < word_mod) × AreWords s

pub push-AreWords : (v : ℤ) (s : Stack) → AreWords s → AreWords (push v s)
unfolding push
push-AreWords v s h = (mask-lt v, h)

pub pop-AreWords : (s : Stack) → AreWords s → ((pop s).0 < word_mod) × AreWords (pop s).1
unfolding pop
pop-AreWords [] h = (omega arith, tt)
pop-AreWords (v ∷ s) h = h

pub get_or-lt : (n : ℕ) (s : Stack) → AreWords s → get_or s n 0 < word_mod
get_or-lt n [] h = omega arith
get_or-lt zero (v ∷ s) h = h.0
get_or-lt (suc n) (v ∷ s) h = get_or-lt n s h.1

set-AreWords : (n v : ℕ) (s : Stack) → v < word_mod → AreWords s → AreWords (set s n v)
set-AreWords n v [] hv h = tt
set-AreWords zero v (x ∷ s) hv h = (hv, h.1)
set-AreWords (suc n) v (x ∷ s) hv h = (h.0, set-AreWords n v s hv h.1)

pub swap-AreWords : (n : ℕ) (s : Stack) → AreWords s → AreWords (swap n s)
unfolding swap
swap-AreWords n s h = set-AreWords n _ _ (get_or-lt 0 s h) (set-AreWords 0 _ s (get_or-lt n s h) h)
