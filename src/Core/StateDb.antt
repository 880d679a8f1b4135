-- ===== src/Core/StateDb.antt =====
-- The interface `StateDB` of core/vm.go, through which the machine reads and writes storage. The
-- machine drops the error of `SetAccountState`.
use blockz.Prelude.{◌&&◌, if◌then◌else◌, ◌=?◌, bytes_eq, ◌≡◌, []}
use blockz.Result.{Result, ok}
use blockz.Types.{Bytes, Address, Hash}

-- What a reader that takes an error for an empty value sees.
abbrev pub stored : Result Bytes → Bytes
stored (ok v) = v
stored _ = []

pub record StateDb {ℓ} (S : Type ℓ) : Type ℓ where
  pub get_account_state : S → Address → Hash → Result Bytes
  pub set_account_state : S → Address → Hash → Bytes → S
  -- A read after a write.
  pub get-set :
      (s : S) (a b : Address) (k j : Hash) (v : Bytes)
      → stored (get_account_state (set_account_state s a k v) b j)
        ≡ (if (a =? b) && (k =? j) then v else stored (get_account_state s b j))
