-- ===== src/Core/Evm/Memory/Laws.antt =====
-- The memory as an unbounded array of bytes that are 0 at first.
use blockz.Prelude.{
  ℕ, ◌+◌, ◌-◌, ◌^◌, ◌<◌, ◌≤◌, ◌≡◌, refl, ap, [], ◌∷◌, ◌++◌, if◌then◌else◌, ltb, leb, arith, length,
  replicate, take, drop, get_or, length-append, length-replicate, length-take, length-drop,
  Bool-cases, inl, inr, get_or-append, get_or-beyond, get_or-replicate, get_or-take, get_or-drop,
  ◌&&◌,
}
use blockz.Result.{ok, panic, Panics, slice_out_of_range}
use blockz.Types.{Bytes}
use blockz.Core.Evm.Memory.{Memory, align32, make_bytes, expand, set, get}

-- The byte at an address.
abbrev pub byte_at : Memory → ℕ → ℕ
byte_at m i = get_or m i 0

-- An access that neither wraps nor asks for more than the runtime gives.
abbrev pub IsInReach : ℕ → ℕ → ℕ → Type 0
IsInReach max_alloc offset size = (offset + size + 31 < 2 ^ 64) × (offset + size + 31 ≤ max_alloc)

resize-byte_at :
    (n : ℕ) (m : Memory) (i : ℕ)
    → length m ≤ n
    → byte_at (take n m ++ drop (length m) (replicate n 0)) i ≡ byte_at m i
resize-byte_at n m i h = ground (
  arith,
  get_or-append 0 (take n m) (drop (length m) (replicate n 0)) i,
  get_or-take 0 n m i,
  length-take n m,
  get_or-drop 0 (length m) (replicate {A = ℕ} n 0) (i - length (take n m)),
  get_or-replicate {A = ℕ} 0 n (length m + (i - length (take n m))),
  get_or-beyond 0 m i,
)

resize-length :
    (n : ℕ) (m : Memory) → length m ≤ n → length (take n m ++ drop (length m) (replicate n 0)) ≡ n
resize-length n m h = omega (
  arith,
  length-append (take n m) (drop (length m) (replicate n 0)),
  length-take n m,
  length-drop (length m) (replicate {A = ℕ} n 0),
  length-replicate {A = ℕ} n 0,
)

-- The bytes of a slice that is written over a part of a longer one.
splice-byte_at :
    (offset : ℕ) (value : Bytes) (m : Memory) (i : ℕ)
    → offset + length value ≤ length m
    → byte_at (take offset m ++ (value ++ drop (offset + length value) m)) i ≡ (
        if leb offset i && ltb i (offset + length value)
        then byte_at value (i - offset)
        else byte_at m i)
splice-byte_at offset value m i h = ground (
  arith,
  get_or-append 0 (take offset m) (value ++ drop (offset + length value) m) i,
  get_or-append 0 value (drop (offset + length value) m) (i - length (take offset m)),
  get_or-take 0 offset m i,
  length-take offset m,
  get_or-drop 0 (offset + length value) m (i - length (take offset m) - length value),
  here,
  there,
)
  where
    here : offset ≤ i → i - length (take offset m) ≡ i - offset
    here le = omega (arith, length-take offset m)

    there :
        offset + length value ≤ i
        → byte_at m (offset + length value + (i - length (take offset m) - length value))
          ≡ byte_at m i
    there le = ap (λ (k : ℕ). byte_at m k) (omega (arith, length-take offset m))

take_of_length : (value : Bytes) → take (length value) value ≡ value
take_of_length [] = refl
take_of_length (x ∷ value) = ap (λ (l : Bytes). x ∷ l) (take_of_length value)

module _ (max_alloc : ℕ) where
  -- Growing keeps every byte, and makes room for the access.
  pub expand_lem :
      (offset size : ℕ) (m : Memory)
      → IsInReach max_alloc offset size
      → 0 < size
      → (m' : Memory) × (expand max_alloc offset size m ≡ ok m')
        × ((i : ℕ) → byte_at m' i ≡ byte_at m i)
        × (offset + size ≤ length m')
  unfolding expand make_bytes
  expand_lem offset size m (wide, given) positive =
      elim (Bool-cases (ltb (length m) (offset + size))) [
        | inl grow ↦
            let n = align32 (offset + size) in
            let len : length (replicate {A = ℕ} n 0) ≡ n = length-replicate n 0 in
            (
              take (length (replicate {A = ℕ} n 0)) m ++ drop (length m) (replicate n 0),
              ground arith,
              λ i. rw len (resize-byte_at n m i (ground arith)),
              rw len (rw (resize-length n m (ground arith)) (omega arith)),
            )
        | inr fits ↦ (m, ground arith, λ i. refl, ground arith)
      ]

  -- A write of at least one byte in reach of the allocation limit goes through, and changes the
  -- bytes of its range and no others.
  pub set_lem :
      (offset : ℕ) (value : Bytes) (m : Memory)
      → IsInReach max_alloc offset (length value)
      → 0 < length value
      → (m' : Memory) × (set max_alloc offset (length value) value m ≡ ok m')
        × ((i : ℕ)
            → byte_at m' i ≡ (
                if leb offset i && ltb i (offset + length value)
                then byte_at value (i - offset)
                else byte_at m i))
  unfolding set
  set_lem offset value m reach positive =
      let (m', grown, same, room) = expand_lem offset (length value) m reach positive in
      (
        take offset m' ++ (value ++ drop (offset + length value) m'),
        ground (arith, grown, take_of_length value),
        λ i. ground (arith, splice-byte_at offset value m' i room, same i),
      )

  -- A read of at least one byte in reach of the allocation limit goes through, returns the bytes
  -- of its range, and changes none.
  pub get_lem :
      (offset size : ℕ) (m : Memory)
      → IsInReach max_alloc offset size
      → 0 < size
      → (r : Bytes) × (m' : Memory) × (get max_alloc offset size m ≡ ok (r, m'))
        × (length r ≡ size)
        × ((i : ℕ) → i < size → byte_at r i ≡ byte_at m (offset + i))
        × ((i : ℕ) → byte_at m' i ≡ byte_at m i)
  unfolding get make_bytes
  get_lem offset size m reach positive =
      let (m', grown, same, room) = expand_lem offset size m reach positive in
      (
        take size (drop offset m'),
        m',
        ground (arith, grown),
        omega (arith, length-take size (drop offset m'), length-drop offset m'),
        λ i h. ground (
          arith,
          get_or-take 0 size (drop offset m') i,
          get_or-drop 0 offset m' i,
          same (offset + i),
        ),
        same,
      )

  -- A read of no bytes from beyond the end of the memory is a panic, since nothing grows it first.
  pub get-zero_size :
      (offset : ℕ) (m : Memory)
      → offset < 2 ^ 64
      → length m < offset
      → get max_alloc offset 0 m ≡ panic slice_out_of_range
  unfolding get expand make_bytes
  get-zero_size offset m h beyond = ground arith

  -- A write at a 64-bit offset, of a 64-bit size, whose end wraps past 2^64 makes a panic.
  pub set_wrapped-Panics :
      (offset size : ℕ) (value : Bytes) (m : Memory)
      → offset < 2 ^ 64
      → 2 ^ 64 ≤ offset + size
      → size < 2 ^ 64
      → Panics (set max_alloc offset size value m)
  unfolding set expand make_bytes
  set_wrapped-Panics offset size value m h wraps small = ground arith
