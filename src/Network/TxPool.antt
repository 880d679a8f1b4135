-- ===== src/Network/TxPool.antt =====
-- network/txpool.go: `TxPool`, all known transactions up to a length, and those that wait for a block.
-- The length is a Go `int`, here not below 0. `Add` takes no lock; here it runs as a whole.
pub mod Fifo
pub mod Race
use blockz.Prelude.{ℕ, Bool, List, [], ◌∷◌, Option, none, some, if◌then◌else◌, ◌==◌}
use blockz.Result.{Result, ok, panic, ◌>>=◌, nil_dereference}
use blockz.Types.{Hash}
use blockz.Core.Data.{Transaction, Primitives}
use blockz.Network.SortedMap
use blockz.Network.SortedMap.{TxSortedMap, new_tx_sorted_map, hash_of}

pub record TxPool : Type 0 where
  pub all : TxSortedMap
  pub waiting : TxSortedMap
  pub max_length : ℕ

unfoldable pub new_tx_pool : ℕ → TxPool
new_tx_pool max_length = record {
  all = new_tx_sorted_map;
  waiting = new_tx_sorted_map;
  max_length = max_length;
}

unfoldable pub contains : Hash → TxPool → Bool
contains h p = SortedMap.contains h p.all

-- `Pending`
unfoldable pub pending : TxPool → List Transaction
pending p = p.waiting.txx

unfoldable pub pending_count : TxPool → ℕ
pending_count p = SortedMap.count p.waiting

unfoldable pub clear_pending : TxPool → TxPool
clear_pending p = record p { waiting = new_tx_sorted_map }

module _ (prims : Primitives) where
  -- The first part of `Add`: a full pool loses its oldest transaction.
  unfoldable pub prune : TxPool → Result TxPool
  prune p =
      if SortedMap.count p.all == p.max_length
      then (SortedMap.first prims p.all >>= λ oldest. elim oldest [
        | none ↦ panic nil_dereference
        | some tx ↦ ok (record p { all = SortedMap.remove (hash_of prims tx) p.all })
      ])
      else ok p

  unfoldable pub add : Transaction → TxPool → Result TxPool
  add tx p = prune p >>= λ room.
      if SortedMap.contains (hash_of prims tx) room.all
      then ok room
      else ok (record room {
        all = SortedMap.add prims tx room.all;
        waiting = SortedMap.add prims tx room.waiting;
      })

  -- One `Add` after the other
  unfoldable pub add_all : List Transaction → TxPool → Result TxPool
  add_all [] p = ok p
  add_all (tx ∷ txx) p = add tx p >>= λ next. add_all txx next
