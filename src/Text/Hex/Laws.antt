-- ===== src/Text/Hex/Laws.antt =====
-- What is printed in hexadecimal can be read.
use blockz.Prelude.{
  false, ℕ, zero, suc, ◌+◌, ◌*◌, ◌/◌, ◌%◌, ◌^◌, ◌<◌, ◌≡◌, refl, ap, ◌∙◌, [], ◌∷◌, Option, none,
  some, if◌then◌else◌, ◌==◌, arith, Bool-cases, inl, inr,
}
use native.Mathlib.Omega.{pow_step}
use blockz.Result.{ok}
use blockz.Types.{Bytes}
use blockz.Text.Hex.{
  hex_digit, hex_value, hex_encode, hex_decode, hex_digits, format_hex, scan_digits, skip_space,
  scan_hex,
}

-- Each number is a byte.
abbrev pub AreBytes : Bytes → Type 0
AreBytes [] = Unit
AreBytes (b ∷ bs) = (b < 256) × AreBytes bs

pub hex_value-hex_digit : (n : ℕ) → n < 16 → hex_value (hex_digit n) ≡ some n
unfolding hex_value hex_digit
hex_value-hex_digit n small = ground arith

pub hex_decode-hex_encode : (bs : Bytes) → AreBytes bs → hex_decode (hex_encode bs) ≡ ok bs
unfolding hex_decode hex_encode
hex_decode-hex_encode [] all = refl
hex_decode-hex_encode (b ∷ bs) all =
    let high = hex_value-hex_digit (b / 16) (omega (arith, all.0)) in
    let low = hex_value-hex_digit (b % 16) (omega arith) in
    let whole : b / 16 * 16 + b % 16 ≡ b = omega arith in
    rw (hex_decode, high, low, hex_decode-hex_encode bs all.1, whole)

-- What has been read before the digits of a number
abbrev started : ℕ → Option ℕ
started n = if n == 0 then none else some n

scan_digits_step :
    (n : ℕ) (s : Bytes)
    → (n == 0) ≡ false
    → scan_digits (started (n / 16)) (hex_digit (n % 16) ∷ s) ≡ scan_digits (some n) s
unfolding scan_digits
scan_digits_step n s nonzero =
    let digit = hex_value-hex_digit (n % 16) (omega arith) in
    let whole : n / 16 * 16 + n % 16 ≡ n = omega arith in
    elim (Bool-cases (n / 16 == 0)) [
      | inl small ↦
          let low : 0 * 16 + n % 16 ≡ n = ground arith in rw (scan_digits, digit, small, low)
      | inr big ↦ rw (scan_digits, digit, big, whole)
    ]

scan_digits-hex_digits :
    (fuel n : ℕ) (s : Bytes)
    → n < 16 ^ fuel
    → scan_digits none (hex_digits fuel n s) ≡ scan_digits (started n) s
unfolding hex_digits
scan_digits-hex_digits zero n s fits = let nothing : n ≡ 0 = omega arith in rw nothing
scan_digits-hex_digits (suc fuel) n s fits = elim (Bool-cases (n == 0)) [
  | inl nothing ↦ rw (hex_digits, nothing)
  | inr more ↦
      let less : n / 16 < 16 ^ fuel = omega (arith, pow_step 16 fuel) in
      rw (hex_digits, more)
        (scan_digits-hex_digits fuel (n / 16) (hex_digit (n % 16) ∷ s) less
          ∙ scan_digits_step n s more)
]

skip_space-digit : (n : ℕ) (s : Bytes) → n < 16 → skip_space (hex_digit n ∷ s) ≡ hex_digit n ∷ s
unfolding skip_space hex_digit
skip_space-digit n s small = ground arith

skip_space-hex_digits :
    (fuel n : ℕ) (s : Bytes)
    → skip_space s ≡ s
    → skip_space (hex_digits fuel n s) ≡ hex_digits fuel n s
unfolding hex_digits
skip_space-hex_digits zero n s plain = plain
skip_space-hex_digits (suc fuel) n s plain = elim (Bool-cases (n == 0)) [
  | inl nothing ↦ rw (hex_digits, nothing) plain
  | inr more ↦
      rw (hex_digits, more)
        (skip_space-hex_digits fuel (n / 16) (hex_digit (n % 16) ∷ s)
          (skip_space-digit (n % 16) s (omega arith)))
]

scan_digits-format_hex :
    (n : ℕ) → n < 2 ^ 64 → scan_digits none (skip_space (format_hex n)) ≡ some n
unfolding scan_digits hex_value skip_space format_hex
scan_digits-format_hex n small = elim (Bool-cases (n == 0)) [
  | inl nothing ↦ let zero_n : 0 ≡ n = ground arith in rw (format_hex, nothing) (ap some zero_n)
  | inr more ↦
      rw (format_hex, more)
        (ap (scan_digits none) (skip_space-hex_digits 16 n [] refl)
          ∙ scan_digits-hex_digits 16 n [] (omega arith)
          ∙ rw (more))
]

-- A `uint64` that is printed with `0x%x` is read again.
pub scan_hex-format_hex : (n : ℕ) → n < 2 ^ 64 → scan_hex (48 ∷ 120 ∷ format_hex n) ≡ some n
unfolding scan_hex
scan_hex-format_hex n small = ground (arith, scan_digits-format_hex n small)
