-- ===== src/Network/TxPool/Fifo.antt =====
-- The pool against its abstract view: a bounded queue of transactions, the oldest first, no two with one
-- hash, and beside it the list of those that wait for a block.
use blockz.Prelude.{
  ℕ, suc, ◌+◌, ◌<◌, ◌≤◌, ◌≡◌, refl, sym, ap, ◌∙◌, true, List, [], ◌∷◌, ◌++◌, if◌then◌else◌, ◌==◌,
  length, length-append, length-pos, drop, arith, Bool-cases, inl, inr,
}
use blockz.Result.{ok}
use blockz.Core.Data.{Transaction, Primitives}
use blockz.Network.SortedMap
use blockz.Network.SortedMap.{TxSortedMap, new_tx_sorted_map, cached, hash_of, count, first, remove}
use blockz.Network.SortedMap.Index.{
  IsIndex, has_hash, contains-has_hash, count-length, new_tx_sorted_map-IsIndex, add-IsIndex,
  remove-first,
}
use blockz.Network.TxPool.{TxPool, new_tx_pool, prune, add, add_all}

module _ (prims : Primitives) where
  -- The abstract pool
  pub record Fifo : Type 0 where
    pub known : List Transaction
    pub waiting : List Transaction

  -- A full queue loses its head.
  unfoldable pub fifo_prune : ℕ → List Transaction → List Transaction
  fifo_prune max_length known = if length known == max_length then drop 1 known else known

  -- A transaction whose hash is not there goes to the end.
  unfoldable pub enqueue : Transaction → List Transaction → List Transaction
  enqueue tx txx =
      if has_hash prims (hash_of prims tx) txx then txx else txx ++ cached prims tx ∷ []

  unfoldable pub fifo_add : ℕ → Transaction → Fifo → Fifo
  fifo_add max_length tx q =
      let room = fifo_prune max_length q.known in
      record {
        known = enqueue tx room;
        waiting =
            if has_hash prims (hash_of prims tx) room then q.waiting else enqueue tx q.waiting;
      }

  abbrev pub view : TxPool → Fifo
  view p = record { known = p.all.txx; waiting = p.waiting.txx }

  -- The representation: both parts are indexed, and the pool is within its length, which is not 0.
  pub record IsPool (p : TxPool) : Type 0 where
    pub all_indexed : IsIndex prims p.all
    pub waiting_indexed : IsIndex prims p.waiting
    pub positive : 0 < p.max_length
    pub bounded : length p.all.txx ≤ p.max_length

  -- After the pruning there is room for one more.
  prune-IsPool :
      (p : TxPool)
      → IsPool p
      → (p' : TxPool) × (prune prims p ≡ ok p')
        × IsIndex prims p'.all
        × (p'.all.txx ≡ fifo_prune p.max_length p.all.txx)
        × (length p'.all.txx < p.max_length)
        × (p'.waiting ≡ p.waiting)
        × (p'.max_length ≡ p.max_length)
  unfolding prune fifo_prune
  prune-IsPool p v =
      let counted = count-length prims p.all v.all_indexed in
      elim (Bool-cases (length p.all.txx == p.max_length)) [
        | inr room ↦
            let counted_room = ap (λ n. n == p.max_length) counted ∙ room in
            (
              p,
              rw (prune, counted_room),
              v.all_indexed,
              rw (fifo_prune, room),
              ground arith,
              refl,
              refl,
            )
        | inl full ↦
            let nonempty : 0 < length p.all.txx = ground (arith, v.positive) in
            let (tx, rest, listed) = length-pos p.all.txx nonempty in
            let (oldest, indexed, left) = remove-first prims p.all v.all_indexed listed in
            let counted_full = ap (λ n. n == p.max_length) counted ∙ full in
            let shorter : fifo_prune p.max_length p.all.txx ≡ rest =
              rw (fifo_prune, full) (ap (drop 1) listed) in
            let lengths : length p.all.txx ≡ suc (length rest) = ap length listed in
            let exact : length p.all.txx ≡ p.max_length = ground arith in
            (
              record p { all = remove (hash_of prims tx) p.all },
              rw (prune, counted_full, oldest),
              indexed,
              left ∙ sym shorter,
              rw left (omega arith),
              refl,
              refl,
            )
      ]

  enqueue-IsIndex :
      (tx : Transaction) (t : TxSortedMap)
      → IsIndex prims t
      → IsIndex prims (SortedMap.add prims tx t)
        × ((SortedMap.add prims tx t).txx ≡ enqueue tx t.txx)
  unfolding enqueue
  enqueue-IsIndex tx t v = add-IsIndex prims tx t v

  enqueue_known :
      (tx : Transaction) (txx : List Transaction)
      → has_hash prims (hash_of prims tx) txx ≡ true
      → enqueue tx txx ≡ txx
  unfolding enqueue
  enqueue_known tx txx there = rw there

  enqueue-length :
      (tx : Transaction) (txx : List Transaction) → length (enqueue tx txx) ≤ length txx + 1
  unfolding enqueue
  enqueue-length tx txx = ground (arith, length-append txx (cached prims tx ∷ []))

  -- `Add` never panics on a pool that is well formed, keeps it so, and does to it what the abstract add
  -- does to the bounded queue and to the list of the transactions that wait.
  pub add-refines :
      (tx : Transaction) (p : TxPool)
      → IsPool p
      → (p' : TxPool) × (add prims tx p ≡ ok p')
        × IsPool p'
        × (p'.max_length ≡ p.max_length)
        × (view p' ≡ fifo_add p.max_length tx (view p))
  unfolding add fifo_add
  add-refines tx p v =
      let (room, pruned, indexed, left, short, same_waiting, same_max) = prune-IsPool p v in
      let h = hash_of prims tx in
      let contained : SortedMap.contains h room.all
          ≡ has_hash prims h (fifo_prune p.max_length p.all.txx) =
        contains-has_hash prims h room.all indexed ∙ ap (has_hash prims h) left in
      let q = fifo_prune p.max_length p.all.txx in
      let waits : IsIndex prims room.waiting = rw same_waiting v.waiting_indexed in
      let roomy : 0 < room.max_length = rw same_max v.positive in
      let bound : length room.all.txx < room.max_length = rw same_max short in
      elim (Bool-cases (has_hash prims h q)) [
        | inl there ↦
            let skipped = enqueue_known tx q there in
            let kept : p.waiting.txx
                ≡ (if has_hash prims h q then p.waiting.txx else enqueue tx p.waiting.txx) =
              rw there in
            (
              room,
              rw (add, pruned, contained, there),
              record {
                all_indexed = indexed;
                waiting_indexed = waits;
                positive = roomy;
                bounded = omega arith;
              },
              same_max,
              λ i. record {
                known = (left ∙ sym skipped) i;
                waiting = (ap (λ (m : TxSortedMap). m.txx) same_waiting ∙ kept) i;
              },
            )
        | inr new ↦
            let queued : enqueue tx p.waiting.txx
                ≡ (if has_hash prims h q then p.waiting.txx else enqueue tx p.waiting.txx) =
              rw new in
            let (all_indexed, all_listed) = enqueue-IsIndex tx room.all indexed in
            let (waiting_indexed, waiting_listed) = enqueue-IsIndex tx room.waiting waits in
            (
              record room {
                all = SortedMap.add prims tx room.all;
                waiting = SortedMap.add prims tx room.waiting;
              },
              rw (add, pruned, contained, new),
              record {
                all_indexed = all_indexed;
                waiting_indexed = waiting_indexed;
                positive = roomy;
                bounded = rw all_listed (omega (arith, enqueue-length tx room.all.txx));
              },
              same_max,
              λ i. record {
                known = (all_listed ∙ ap (enqueue tx) left) i;
                waiting =
                    (waiting_listed
                        ∙ ap (λ (m : TxSortedMap). enqueue tx m.txx) same_waiting
                        ∙ queued)
                      i;
              },
            )
      ]

  pub new_tx_pool-IsPool : (max_length : ℕ) → 0 < max_length → IsPool (new_tx_pool max_length)
  unfolding new_tx_pool new_tx_sorted_map
  new_tx_pool-IsPool max_length positive = record {
    all_indexed = new_tx_sorted_map-IsIndex prims;
    waiting_indexed = new_tx_sorted_map-IsIndex prims;
    positive = positive;
    bounded = omega arith;
  }

  add_all-IsPool :
      (txx : List Transaction) (p : TxPool)
      → IsPool p
      → (p' : TxPool) × (add_all prims txx p ≡ ok p') × IsPool p' × (p'.max_length ≡ p.max_length)
  unfolding add_all
  add_all-IsPool [] p v = (p, refl, v, refl)
  add_all-IsPool (tx ∷ txx) p v =
      let (next, added, next_v, same, _) = add-refines tx p v in
      let (p', rest, v', same') = add_all-IsPool txx next next_v in
      (p', rw (add_all, added) rest, v', same' ∙ same)

  -- A pool that begins empty, with a length that is not 0, never holds more transactions than that,
  -- whatever is added to it, and no `Add` panics.
  pub add_all-bounded :
      (max_length : ℕ) (txx : List Transaction)
      → 0 < max_length
      → (p : TxPool) × (add_all prims txx (new_tx_pool max_length) ≡ ok p)
        × (count p.all ≤ max_length)
  add_all-bounded max_length txx positive =
      let empty = new_tx_pool-IsPool max_length positive in
      let (p, added, v, same) = add_all-IsPool txx (new_tx_pool max_length) empty in
      let max : p.max_length ≡ max_length = unfold new_tx_pool in same in
      (p, added, omega (arith, count-length prims p.all v.all_indexed, v.bounded))
