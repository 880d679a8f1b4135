-- ===== src/Core/Evm/Memory.antt =====
-- The byte memory of a run. Offsets and sizes are `uint64` and wrap; `max_alloc` is the longest
-- slice that the Go runtime makes, a parameter: a longer one is a panic.
pub mod Laws
pub mod Words
use blockz.Prelude.{
  ℕ, ◌+◌, ◌-◌, ◌*◌, ◌/◌, ◌%◌, ◌^◌, Bool, ◌&&◌, List, [], ◌∷◌, ◌++◌, if◌then◌else◌, ◌==◌, ltb, leb,
  length, take, drop, replicate,
}
use blockz.Result.{Result, ok, panic, makeslice, slice_out_of_range, ◌>>=◌}
use blockz.Types.{Bytes}
use blockz.Core.Evm.Word.{bytes_of, left_pad}

abbrev pub Memory : Type 0
Memory = Bytes

-- `(needed + 31) / 32 * 32` in `uint64` arithmetic
abbrev pub align32 : ℕ → ℕ
align32 needed = (needed + 31) % 2 ^ 64 / 32 * 32

module _ (max_alloc : ℕ) where
  -- `make([]byte, size)`
  unfoldable pub make_bytes : ℕ → Result Bytes
  make_bytes size = if leb size max_alloc then ok (replicate size 0) else panic makeslice

  -- `expand`: the copy keeps what fits into the new store.
  unfoldable pub expand : ℕ → ℕ → Memory → Result Memory
  unfolding make_bytes
  expand offset size m =
      if size == 0
      then ok m
      else let needed = (offset + size) % 2 ^ 64 in
        if ltb (length m) needed
        then (make_bytes (align32 needed) >>= λ zeros.
            ok (take (length zeros) m ++ drop (length m) zeros))
        else ok m

  -- The bounds of `m.store[lo:hi]`.
  abbrev pub slice_fits : ℕ → ℕ → Memory → Bool
  slice_fits lo hi m = leb lo hi && leb hi (length m)

  -- `Set`: `copy(m.store[offset:offset+size], value)`
  unfoldable pub set : ℕ → ℕ → Bytes → Memory → Result Memory
  unfolding expand
  set offset size value m = do
    m' ← expand offset size m
    (if slice_fits offset ((offset + size) % 2 ^ 64) m'
        then ok (take offset m' ++ (take size value ++ drop (offset + length (take size value)) m'))
        else panic slice_out_of_range)

  -- `Set32`
  unfoldable pub set32 : ℕ → ℕ → Memory → Result Memory
  unfolding set left_pad bytes_of
  set32 offset val m = left_pad (bytes_of val) >>= λ padded. set offset 32 padded m

  -- `Get`: the bytes read, and the memory that the read has grown.
  unfoldable pub get : ℕ → ℕ → Memory → Result (Bytes × Memory)
  unfolding expand make_bytes
  get offset size m = do
    m' ← expand offset size m
    res ← make_bytes size
    (if slice_fits offset ((offset + size) % 2 ^ 64) m'
        then ok (take size (drop offset m'), m')
        else panic slice_out_of_range)
