-- ===== src/Network/SortedMap.antt =====
-- network/txpool.go: `TxSortedMap`, the transactions by hash and in the order of their arrival. A
-- pointer to a transaction is the transaction once its hash has been asked for: the code asks for the
-- hash first, which then stays in the object that both parts point to.
pub mod Index
use blockz.Prelude.{
  ℕ, zero, suc, Bool, true, false, List, [], ◌∷◌, ◌++◌, Option, none, some, if◌then◌else◌, ◌=?◌,
  bytes_eq, length,
}
use blockz.Result.{Result, ok, panic, ◌>>=◌}
use blockz.Map
use blockz.Map.{Map}
use blockz.Types.{Hash}
use blockz.Types.Collection
use blockz.Core.Data.{Transaction, Primitives}
use blockz.Core.Data.Equality.{transaction_eq}
use blockz.Core.Transaction.{tx_hash}

pub record TxSortedMap : Type 0 where
  pub lookup : Map Hash Transaction
  pub txx : List Transaction

-- `NewTxSortedMap`, also `Clear`
unfoldable pub new_tx_sorted_map : TxSortedMap
new_tx_sorted_map = record { lookup = []; txx = [] }

-- `Get`; `none` is the nil pointer.
unfoldable pub get : Hash → TxSortedMap → Option Transaction
get h t = Map.lookup h t.lookup

unfoldable pub count : TxSortedMap → ℕ
count t = length t.lookup

unfoldable pub contains : Hash → TxSortedMap → Bool
contains h t = Map.has h t.lookup

-- `Remove`: no element of the list is equal to a nil pointer.
unfoldable pub remove : Hash → TxSortedMap → TxSortedMap
remove h t = record {
  lookup = Map.delete h t.lookup;
  txx = elim (Map.lookup h t.lookup) [ none ↦ t.txx | some tx ↦ Collection.remove tx t.txx ];
}

module _ (prims : Primitives) where
  -- The transaction behind a pointer after `Hash`, and what `Hash` returns.
  abbrev pub cached : Transaction → Transaction
  cached tx = (tx_hash prims tx).0

  abbrev pub hash_of : Transaction → Hash
  hash_of tx = (tx_hash prims tx).1

  -- `First`; `none` is the nil pointer.
  unfoldable pub first : TxSortedMap → Result (Option Transaction)
  first t = Collection.get t.txx 0 >>= λ oldest. ok (Map.lookup (hash_of oldest) t.lookup)

  unfoldable pub add : Transaction → TxSortedMap → TxSortedMap
  add tx t = if Map.has (hash_of tx) t.lookup then t else record {
    lookup = Map.insert (hash_of tx) (cached tx) t.lookup;
    txx = Collection.insert (cached tx) t.txx;
  }
