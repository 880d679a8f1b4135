-- ===== src/Core/Evm/Memory/Words.antt =====
-- Words in memory: a stored word is what the next load of the offset gives.
use blockz.Prelude.{
  ℕ, ◌+◌, ◌-◌, ◌<◌, ◌≡◌, ap, ◌∙◌, false, ltb, leb, ◌&&◌, arith, length, eq_of_get_or,
}
use blockz.Result.{ok}
use blockz.Types.{Bytes}
use blockz.Core.Evm.Word.{set_bytes, left_pad-bytes_of, word_mod}
use blockz.Core.Evm.Memory.{Memory, set32, get}
use blockz.Core.Evm.Memory.Laws.{IsInReach, byte_at, set_lem, get_lem}

module _ (max_alloc : ℕ) where
  -- `Set32` of a 256-bit word at an offset in reach goes through; a `Get` of 32 bytes at that offset
  -- then reads bytes whose value is the word, and the bytes outside the 32 are those from before.
  pub get-set32 :
      (offset val : ℕ) (m : Memory)
      → val < word_mod
      → IsInReach max_alloc offset 32
      → (m' : Memory) × (set32 max_alloc offset val m ≡ ok m')
        × ((r : Bytes) × (m'' : Memory) × (get max_alloc offset 32 m' ≡ ok (r, m''))
            × (set_bytes r ≡ val))
        × ((i : ℕ) → (leb offset i && ltb i (offset + 32)) ≡ false → byte_at m' i ≡ byte_at m i)
  unfolding set32
  get-set32 offset val m small reach =
      let (b, padded, len, value) = left_pad-bytes_of val small in
      let reach' : IsInReach max_alloc offset (length b) = rw len reach in
      let (m', written, bytes) = set_lem max_alloc offset b m reach' (omega arith) in
      let (r, m'', read, count, reads, _) = get_lem max_alloc offset 32 m' reach (omega arith) in
      let same : r ≡ b =
        eq_of_get_or 0 r b (omega arith)
          (λ i lt. reads i (omega arith) ∙ (ground (arith, bytes (offset + i), back offset i))) in
      (
        m',
        rw padded (rw len at written),
        (r, m'', read, ap set_bytes same ∙ value),
        λ i out. ground (arith, bytes i, len),
      )
    where
      back : (a i : ℕ) → a + i - a ≡ i
      back a i = omega arith
