-- ===== src/Network/SortedMap/Index.antt =====
-- The invariant of `TxSortedMap`: the lookup table is the index of the list by hash, and no two
-- transactions of the list have one hash.
use blockz.Prelude.{
  ◌≡◌, refl, sym, ap, ◌∙◌, Bool, true, false, List, [], ◌∷◌, ◌++◌, none, some, map, if◌then◌else◌,
  ◌=?◌, bytes_eq, bytes_beq_iff, length, length-map, arith, Bool-cases, inl, inr, beq_refl,
}
use blockz.Result.{ok}
use blockz.Map.{Map, lookup, has, insert, delete}
use blockz.Map.Laws.{insert_absent}
use blockz.Types.{Hash, is_zero}
use blockz.Types.Collection
use blockz.Types.Collection.{remove_first, remove_lem}
use blockz.Core.Data.{Transaction, Primitives}
use blockz.Core.Data.Equality.{transaction_eq}
use blockz.Core.Transaction.{tx_hash, tx_hasher}
use blockz.Network.SortedMap.{
  TxSortedMap, new_tx_sorted_map, count, contains, remove, cached, hash_of, first, add,
}

module _ (prims : Primitives) where
  abbrev pub index : List Transaction → Map Hash Transaction
  index txx = map (λ tx. (hash_of prims tx, tx)) txx

  -- No hash comes twice.
  abbrev pub AreDistinct : List Transaction → Type 0
  AreDistinct [] = Unit
  AreDistinct (tx ∷ txx) = (lookup (hash_of prims tx) (index txx) ≡ none) × AreDistinct txx

  pub record IsIndex (t : TxSortedMap) : Type 0 where
    pub indexed : t.lookup ≡ index t.txx
    pub distinct : AreDistinct t.txx

  -- Whether a list has a transaction with a hash.
  unfoldable pub has_hash : Hash → List Transaction → Bool
  has_hash h [] = false
  has_hash h (tx ∷ txx) = let rest = has_hash h txx in if hash_of prims tx =? h then true else rest

  pub hash_of-cached : (tx : Transaction) → hash_of prims (cached prims tx) ≡ hash_of prims tx
  unfolding tx_hash tx_hasher
  hash_of-cached tx = elim (Bool-cases (is_zero tx.hash)) [
    | inr kept ↦ rw (hash_of, cached, tx_hash, kept, kept)
    | inl fresh ↦ elim (Bool-cases (is_zero (tx_hasher prims tx))) [
      | inl zero_hash ↦ rw (hash_of, cached, tx_hash, fresh, zero_hash)
      | inr other ↦ rw (hash_of, cached, tx_hash, fresh, other)
    ]
  ]

  lookup-index : (h : Hash) (txx : List Transaction) → has h (index txx) ≡ has_hash h txx
  unfolding has lookup has_hash
  lookup-index h [] = refl
  lookup-index h (tx ∷ txx) = ground (arith, lookup-index h txx)

  not-has_hash :
      (h : Hash) (txx : List Transaction) → has_hash h txx ≡ false → lookup h (index txx) ≡ none
  unfolding lookup has_hash
  not-has_hash h [] miss = refl
  not-has_hash h (tx ∷ txx) miss = ground (arith, not-has_hash h txx)

  index-append : (front back : List Transaction) → index (front ++ back) ≡ index front ++ index back
  index-append [] back = refl
  index-append (tx ∷ front) back = ap (λ m. (hash_of prims tx, tx) ∷ m) (index-append front back)

  lookup-append_none :
      (h j : Hash) (v : Transaction) (m : Map Hash Transaction)
      → lookup h m ≡ none
      → (j =? h) ≡ false
      → lookup h (m ++ (j, v) ∷ []) ≡ none
  unfolding lookup
  lookup-append_none h j v [] miss other = ground arith
  lookup-append_none h j v ((i, w) ∷ m) miss other = ground (arith, lookup-append_none h j v m)

  AreDistinct-append :
      (txx : List Transaction) (tx : Transaction)
      → AreDistinct txx
      → has_hash (hash_of prims tx) txx ≡ false
      → AreDistinct (txx ++ tx ∷ [])
  unfolding lookup has_hash
  AreDistinct-append [] tx distinct miss = (refl, tt)
  AreDistinct-append (x ∷ txx) tx distinct miss =
      let apart : (hash_of prims tx =? hash_of prims x) ≡ false = ground (
        arith,
        bytes_beq_iff (hash_of prims tx) (hash_of prims x),
        bytes_beq_iff (hash_of prims x) (hash_of prims tx),
      ) in
      (
        rw (index-append txx (tx ∷ [])) (
            lookup-append_none (hash_of prims x) (hash_of prims tx) tx (index txx) distinct.0
              apart),
        AreDistinct-append txx tx distinct.1 (ground arith),
      )

  delete_absent : (h : Hash) (m : Map Hash Transaction) → lookup h m ≡ none → delete h m ≡ m
  unfolding lookup delete
  delete_absent h [] miss = refl
  delete_absent h ((i, w) ∷ m) miss = ground (arith, delete_absent h m)

  pub contains-has_hash : (h : Hash) (t : TxSortedMap) → IsIndex t → contains h t ≡ has_hash h t.txx
  unfolding contains
  contains-has_hash h t v = ap (has h) v.indexed ∙ lookup-index h t.txx

  pub count-length : (t : TxSortedMap) → IsIndex t → count t ≡ length t.txx
  unfolding count
  count-length t v =
      ap length v.indexed ∙ length-map t.txx (λ (tx : Transaction). (hash_of prims tx, tx))

  pub new_tx_sorted_map-IsIndex : IsIndex new_tx_sorted_map
  unfolding new_tx_sorted_map
  new_tx_sorted_map-IsIndex = record { indexed = refl; distinct = tt }

  index-insert :
      (tx : Transaction) (t : TxSortedMap)
      → IsIndex t
      → has_hash (hash_of prims tx) t.txx ≡ false
      → insert (hash_of prims tx) (cached prims tx) t.lookup ≡ index (t.txx ++ cached prims tx ∷ [])
  index-insert tx t v new =
      ap (insert (hash_of prims tx) (cached prims tx)) v.indexed
      ∙ insert_absent (hash_of prims tx) (cached prims tx) (index t.txx)
          (not-has_hash (hash_of prims tx) t.txx new)
      ∙ ap (λ (h : Hash). index t.txx ++ (h, cached prims tx) ∷ []) (sym (hash_of-cached tx))
      ∙ sym (index-append t.txx (cached prims tx ∷ []))

  -- `Add` puts a transaction with a new hash at the end, and leaves the map for any other.
  pub add-IsIndex :
      (tx : Transaction) (t : TxSortedMap)
      → IsIndex t
      → IsIndex (add prims tx t)
        × ((add prims tx t).txx
            ≡ (if has_hash (hash_of prims tx) t.txx then t.txx else t.txx ++ cached prims tx ∷ []))
  unfolding add Collection.insert
  add-IsIndex tx t v =
      let known = ap (has (hash_of prims tx)) v.indexed ∙ lookup-index (hash_of prims tx) t.txx in
      elim (Bool-cases (has_hash (hash_of prims tx) t.txx)) [
        | inl there ↦ rw (add, known, there) (v, refl)
        | inr new ↦
            rw (add, known, new)
              (
                record {
                  indexed = index-insert tx t v new;
                  distinct =
                      AreDistinct-append t.txx (cached prims tx) v.distinct
                        (rw (hash_of-cached tx) new);
                },
                refl,
              )
      ]

  -- `First` is the head of the list, and removing it by its hash leaves the tail.
  pub remove-first :
      (t : TxSortedMap) {tx : Transaction} {rest : List Transaction}
      → IsIndex t
      → t.txx ≡ tx ∷ rest
      → (first prims t ≡ ok (some tx))
        × IsIndex (remove (hash_of prims tx) t)
        × ((remove (hash_of prims tx) t).txx ≡ rest)
  unfolding first remove Collection.get lookup delete remove_first
  remove-first t {tx} {rest} v listed =
      let h = hash_of prims tx in
      let whole : t.lookup ≡ (h, tx) ∷ index rest = v.indexed ∙ ap index listed in
      let found : lookup h t.lookup ≡ some tx = ap (lookup h) whole ∙ rw (lookup, beq_refl h) in
      let distinct : AreDistinct (tx ∷ rest) = rw listed at v.distinct in
      let gone : Collection.remove tx t.txx ≡ rest =
        ap (Collection.remove tx) listed
        ∙ remove_lem tx (tx ∷ rest)
        ∙ rw (remove_first, beq_refl tx) in
      let deleted : delete h t.lookup ≡ index rest =
        ap (delete h) whole ∙ rw (delete, beq_refl h) (delete_absent h (index rest) distinct.0) in
      let left : TxSortedMap = record { lookup = index rest; txx = rest } in
      let removed : remove h t ≡ left = rw (remove, deleted, found, gone) in
      (
        rw (first, listed, found),
        rw removed (record { indexed = refl; distinct = distinct.1 }),
        ap (λ (m : TxSortedMap). m.txx) removed,
      )
