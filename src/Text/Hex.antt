-- ===== src/Text/Hex.antt =====
-- encoding/hex, and the verb `%x` of fmt.
pub mod Laws
use blockz.Prelude.{
  ℕ, zero, suc, ◌+◌, ◌-◌, ◌*◌, ◌/◌, ◌%◌, ◌^◌, [], ◌∷◌, Option, none, some, if◌then◌else◌, ltb, leb,
  ◌==◌, ◌&&◌,
}
use blockz.Result.{Result, ok, err, bad_hex, ◌>>=◌}
use blockz.Types.{Bytes}

-- The digit of a number below 16, in lower case
unfoldable pub hex_digit : ℕ → ℕ
hex_digit n = if ltb n 10 then 48 + n else 87 + n

-- The value of a digit in either case
unfoldable pub hex_value : ℕ → Option ℕ
hex_value c =
    if leb 48 c && leb c 57
    then some (c - 48)
    else if leb 97 c && leb c 102
    then some (c - 87)
    else if leb 65 c && leb c 70
    then some (c - 55)
    else none

-- `hex.EncodeToString`
unfoldable pub hex_encode : Bytes → Bytes
hex_encode [] = []
hex_encode (b ∷ bs) = hex_digit (b / 16) ∷ hex_digit (b % 16) ∷ hex_encode bs

-- `hex.DecodeString`
unfoldable pub hex_decode : Bytes → Result Bytes
hex_decode [] = ok []
hex_decode (x ∷ []) = err bad_hex
hex_decode (x ∷ y ∷ s) = elim (hex_value x) [
  | none ↦ err bad_hex
  | some hi ↦ elim (hex_value y) [
    | none ↦ err bad_hex
    | some lo ↦ hex_decode s >>= λ bytes. ok ((hi * 16 + lo) ∷ bytes)
  ]
]

-- The digits of a number that is not 0, behind `s`; the fuel bounds their count.
unfoldable pub hex_digits : ℕ → ℕ → Bytes → Bytes
hex_digits zero n s = s
hex_digits (suc fuel) n s =
    let rest = hex_digits fuel (n / 16) (hex_digit (n % 16) ∷ s) in if n == 0 then s else rest

-- `%x` of a `uint64`, which has at most 16 digits
unfoldable pub format_hex : ℕ → Bytes
format_hex n = if n == 0 then 48 ∷ [] else hex_digits 16 n []

-- The longest run of digits, on top of a value; `none` while there is no digit.
unfoldable pub scan_digits : Option ℕ → Bytes → Option ℕ
scan_digits acc [] = acc
scan_digits acc (c ∷ s) = elim (hex_value c) [
  | none ↦ acc
  | some d ↦ scan_digits (some (elim acc [ none ↦ 0 | some n ↦ n ] * 16 + d)) s
]

-- A blank or a tab in front
unfoldable pub skip_space : Bytes → Bytes
skip_space [] = []
skip_space (c ∷ s) =
    let rest = skip_space s in if c == 32 then rest else if c == 9 then rest else c ∷ s

-- `fmt.Sscanf(s, "0x%x", &n)` into a `uint64`; `none` leaves the variable alone.
unfoldable pub scan_hex : Bytes → Option ℕ
scan_hex (x ∷ y ∷ s) =
    if (x == 48) && (y == 120)
    then elim (scan_digits none (skip_space s)) [
      | none ↦ none
      | some n ↦ if ltb n (2 ^ 64) then some n else none
    ]
    else none
scan_hex s = none
