-- ===== src/Types.antt =====
-- types/hash.go and types/address.go: fixed arrays of bytes. A byte is a number below 256; the
-- length is what `AddressFromBytes` and `HashFromBytes` check.
pub mod Collection
use blockz.Prelude.{
  ℕ, zero, suc, Bool, true, false, List, [], ◌∷◌, ◌==◌, if◌then◌else◌, ◌=?◌, bytes_eq, length,
  get_or, replicate, ◌≢◌, ◌≡◌, refl, ◌↔◌, arith, ◌&&◌,
}
use blockz.Result.{Result, ok, panic, slice_out_of_range}

abbrev pub Bytes : Type 0
Bytes = List ℕ

abbrev pub Address : Type 0
Address = Bytes

abbrev pub Hash : Type 0
Hash = Bytes

-- The zero value of `Hash` and of `Address`.
abbrev pub zero_hash : Hash
zero_hash = replicate 32 0

abbrev pub zero_address : Address
zero_address = replicate 20 0

-- `Hash.IsZero`: the loop over the bytes, left at the first byte that is not 0.
unfoldable pub is_zero : Hash → Bool
is_zero [] = true
is_zero (b ∷ h) = let rest = is_zero h in if b == 0 then rest else false

-- The loop of `ToSlice` (and of the two `…FromBytes`): `n` bytes from index 0 on, one at a time.
unfoldable pub copy_bytes : ℕ → Bytes → Bytes
copy_bytes zero b = []
copy_bytes (suc n) [] = 0 ∷ copy_bytes n []
copy_bytes (suc n) (x ∷ b) = x ∷ copy_bytes n b

unfoldable pub hash_to_slice : Hash → Bytes
unfolding copy_bytes
hash_to_slice h = copy_bytes 32 h

unfoldable pub address_to_slice : Address → Bytes
unfolding copy_bytes
address_to_slice a = copy_bytes 20 a

unfoldable pub hash_from_bytes : Bytes → Result Hash
unfolding copy_bytes
hash_from_bytes b = if length b == 32 then ok (copy_bytes 32 b) else panic slice_out_of_range

unfoldable pub address_from_bytes : Bytes → Result Address
unfolding copy_bytes
address_from_bytes b = if length b == 20 then ok (copy_bytes 20 b) else panic slice_out_of_range

-- `Address.Equals`
unfoldable pub address_equals : Address → Address → Bool
address_equals a other = a =? other

pub copy_bytes-length : (n : ℕ) (b : Bytes) → length b ≡ n → copy_bytes n b ≡ b
unfolding copy_bytes
copy_bytes-length zero [] h = refl
copy_bytes-length zero (x ∷ b) h = absurd (omega arith)
copy_bytes-length (suc n) [] h = absurd (omega arith)
copy_bytes-length (suc n) (x ∷ b) h = ground (arith, copy_bytes-length n b (omega arith))

-- A byte string converts to an address and back without a change exactly when it is 20 bytes long;
-- any other length makes a panic.
pub address_from_bytes_lem :
    (b : Bytes)
    → (length b ≡ 20 → (address_from_bytes b ≡ ok b) × (address_to_slice b ≡ b))
      × (length b ≢ 20 → address_from_bytes b ≡ panic slice_out_of_range)
unfolding address_from_bytes address_to_slice
address_from_bytes_lem b =
    (λ h. (ground (arith, copy_bytes-length 20 b h), copy_bytes-length 20 b h), λ h. ground arith)

pub is_zero_iff : (n : ℕ) (h : Hash) → length h ≡ n → (is_zero h ≡ true) ↔ (h ≡ replicate n 0)
unfolding is_zero
is_zero_iff zero [] e = (λ _. refl, λ _. refl)
is_zero_iff zero (x ∷ h) e = absurd (omega arith)
is_zero_iff (suc n) [] e = absurd (omega arith)
is_zero_iff (suc n) (x ∷ h) e = ground (arith, is_zero_iff n h (omega arith))
