-- ===== src/Core/Evm/Word.antt =====
-- The `big.Int` operations of core/vm.go: the mask to 256 bits, the low 64 bits, and the big-endian
-- bytes of a number. A byte is a number below 256.
use blockz.Prelude.{
  ℕ, zero, suc, ◌+◌, ◌-◌, ◌*◌, ◌/◌, ◌%◌, ◌^◌, ◌<◌, ◌≤◌, ◌≡◌, refl, [], ◌∷◌, ◌++◌, if◌then◌else◌,
  ◌==◌, leb, arith, ℤ, pos, negsuc, sub_ℕ, length, replicate, ◌∙◌, length-append, length-replicate,
  Bool-cases, inl, inr,
}
use native.Mathlib.Nat.{pow-suc}
use blockz.Result.{Result, ok, panic, slice_out_of_range}
use blockz.Types.{Bytes}

abbrev pub word_mod : ℕ
word_mod = 2 ^ 256

-- `And(v, Max256)`: the low 256 bits, of a negative number those of its two's complement.
unfoldable pub mask : ℤ → ℕ
mask (pos n) = n % word_mod
mask (negsuc n) = word_mod - 1 - n % word_mod

-- `Uint64()`: the low 64 bits.
abbrev pub uint64 : ℕ → ℕ
uint64 v = v % 2 ^ 64

-- `SetBytes`, from the accumulated value on.
unfoldable pub set_bytes_from : ℕ → Bytes → ℕ
set_bytes_from acc [] = acc
set_bytes_from acc (b ∷ bs) = set_bytes_from (acc * 256 + b) bs

unfoldable pub set_bytes : Bytes → ℕ
unfolding set_bytes_from
set_bytes bs = set_bytes_from 0 bs

-- `Bytes()`: no leading zero byte, and no byte at all for 0. The fuel is the number itself, which
-- bounds the number of its digits.
unfoldable pub digits_of : ℕ → ℕ → Bytes
digits_of zero v = []
digits_of (suc n) v =
    let front = digits_of n (v / 256) in if v == 0 then [] else front ++ v % 256 ∷ []

unfoldable pub bytes_of : ℕ → Bytes
unfolding digits_of
bytes_of v = digits_of v v

-- `padded := make([]byte, 32); copy(padded[32-len(b):], b)`: a longer value has no place to start.
unfoldable pub left_pad : Bytes → Result Bytes
left_pad b =
    if leb (length b) 32 then ok (replicate (32 - length b) 0 ++ b) else panic slice_out_of_range

pub mask-lt : (v : ℤ) → mask v < word_mod
unfolding mask
mask-lt (pos n) = omega arith
mask-lt (negsuc n) = omega arith

pub mask_id : (n : ℕ) → n < word_mod → mask (pos n) ≡ n
unfolding mask
mask_id n h = omega arith

-- A difference of two words wraps below zero.
pub mask-sub :
    (x y : ℕ) → x < word_mod → y < word_mod → mask (sub_ℕ x y) ≡ (x + word_mod - y) % word_mod
unfolding mask
mask-sub x y hx hy = ground arith

set_bytes_from-append :
    (acc : ℕ) (xs ys : Bytes)
    → set_bytes_from acc (xs ++ ys) ≡ set_bytes_from (set_bytes_from acc xs) ys
unfolding set_bytes_from
set_bytes_from-append acc [] ys = refl
set_bytes_from-append acc (x ∷ xs) ys = set_bytes_from-append (acc * 256 + x) xs ys

set_bytes-digits_of : (n v : ℕ) → v ≤ n → set_bytes (digits_of n v) ≡ v
unfolding set_bytes digits_of
set_bytes-digits_of zero v h = omega arith
set_bytes-digits_of (suc n) v h = elim (Bool-cases (v == 0)) [
  | inl none_left ↦ rw none_left (ground arith)
  | inr more ↦
      rw (more, set_bytes_from-append 0 (digits_of n (v / 256)) (v % 256 ∷ []))
        (omega (arith, set_bytes-digits_of n (v / 256) (ground arith)))
]

-- The bytes of a number read back as the number.
pub set_bytes-bytes_of : (v : ℕ) → set_bytes (bytes_of v) ≡ v
unfolding bytes_of
set_bytes-bytes_of v = set_bytes-digits_of v v (omega arith)

set_bytes-zeros : (n : ℕ) (bs : Bytes) → set_bytes (replicate n 0 ++ bs) ≡ set_bytes bs
unfolding set_bytes
set_bytes-zeros zero bs = refl
set_bytes-zeros (suc n) bs = set_bytes-zeros n bs

length-digits_of : (k n v : ℕ) → v < 256 ^ k → length (digits_of n v) ≤ k
unfolding digits_of
length-digits_of k zero v h = omega arith
length-digits_of zero (suc n) v h = ground arith
length-digits_of (suc k) (suc n) v h = elim (Bool-cases (v == 0)) [
  | inl none_left ↦ rw none_left (omega arith)
  | inr more ↦ rw more (
      omega (
        arith,
        length-append (digits_of n (v / 256)) (v % 256 ∷ []),
        length-digits_of k n (v / 256) (omega (arith, pow-suc 256 k)),
      ))
]

-- A 256-bit word has at most 32 bytes, so it can be padded, to 32 bytes with the same value.
pub left_pad-bytes_of :
    (v : ℕ)
    → v < word_mod
    → (b : Bytes) × (left_pad (bytes_of v) ≡ ok b) × (length b ≡ 32) × (set_bytes b ≡ v)
unfolding left_pad bytes_of
left_pad-bytes_of v h =
    let short : length (digits_of v v) ≤ 32 = length-digits_of 32 v v h in
    let zeros : Bytes = replicate (32 - length (digits_of v v)) 0 in
    (
      zeros ++ digits_of v v,
      ground arith,
      omega (
        arith,
        length-append zeros (digits_of v v),
        length-replicate (32 - length (digits_of v v)) (zero),
      ),
      set_bytes-zeros (32 - length (digits_of v v)) (digits_of v v) ∙ set_bytes-bytes_of v,
    )
