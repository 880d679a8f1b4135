-- ===== src/Core/Storage.antt =====
-- core/storage.go: the interface `Storage`, and its implementation by maps in memory.
pub mod Memory
pub mod LevelDb
use blockz.Prelude.{ℕ, ◌^◌, ◌<◌, ◌==◌, ◌≡◌, if◌then◌else◌}
use blockz.Result.{Result, ok}
use blockz.Types.{Hash}
use blockz.Core.Data.{Transaction, Header, Block}

pub record Storage (T : Type 0) : Type 0 where
  pub put : T → Block → T × Result (Unit {0})
  pub get : T → ℕ → Result Block
  pub get_by_hash : T → Hash → Result Block
  pub get_tx_by_hash : T → Hash → Result Transaction
  -- What a store gives back for a block that was put: the block up to its caches.
  pub kept : Block → Block
  pub kept_header : (b : Block) → (kept b).header ≡ b.header
  -- A read of a height after a put that succeeded. Heights are `uint32`.
  pub get-put :
      (t t' : T) (b : Block)
      → put t b ≡ (t', ok tt)
      → b.header.height < 2 ^ 32
      → (height : ℕ) → height < 2 ^ 32
      → get t' height ≡ (if b.header.height == height then ok (kept b) else get t height)
