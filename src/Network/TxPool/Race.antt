-- ===== src/Network/TxPool/Race.antt =====
-- network/txpool.go: two calls of `Add` that overlap. The method holds no lock, and the loop of a node
-- and the handlers of the RPC server call it.
use blockz.Prelude.{
  ◌+◌, ◌<◌, ◌≤◌, ◌≡◌, refl, ◌∙◌, false, List, [], ◌∷◌, if◌then◌else◌, ◌==◌, ◌=?◌, bytes_eq, length,
  arith, Bool-cases, inl, inr,
}
use blockz.Result.{ok, ◌>>=◌}
use blockz.Map.{Map, lookup, insert, has}
use blockz.Map.Laws.{lookup-insert_ne}
use blockz.Types.{Hash}
use blockz.Core.Data.{Transaction, Primitives}
use blockz.Network.SortedMap
use blockz.Network.SortedMap.{hash_of, cached, count}
use blockz.Network.TxPool.{TxPool, prune, add, add_all, contains}

module _ (prims : Primitives) where
  -- The second part of `Add`, after the pruning
  unfoldable pub admit : Transaction → TxPool → TxPool
  admit tx p = if SortedMap.contains (hash_of prims tx) p.all then p else record p {
    all = SortedMap.add prims tx p.all;
    waiting = SortedMap.add prims tx p.waiting;
  }

  add-admit :
      (tx : Transaction) (p : TxPool)
      → add prims tx p ≡ (prune prims p >>= λ room. ok (admit tx room))
  unfolding add admit
  add-admit tx p = ground arith

  length-insert :
      (h : Hash) (tx : Transaction) (m : Map Hash Transaction)
      → has h m ≡ false
      → length (insert h tx m) ≡ length m + 1
  unfolding has lookup insert
  length-insert h tx [] new = refl
  length-insert h tx ((k, v) ∷ m) new = ground (arith, length-insert h tx m)

  count-admit :
      (tx : Transaction) (p : TxPool)
      → count (admit tx p).all
        ≡ (if contains (hash_of prims tx) p then count p.all else count p.all + 1)
  unfolding admit contains SortedMap.contains SortedMap.add count
  count-admit tx p = elim (Bool-cases (has (hash_of prims tx) p.all.lookup)) [
    | inl known ↦ rw (admit, SortedMap.contains, known)
    | inr new ↦
        rw (admit, SortedMap.contains, SortedMap.add, new)
          (length-insert (hash_of prims tx) (cached prims tx) p.all.lookup new)
  ]

  contains-admit :
      (tx : Transaction) (h : Hash) (p : TxPool)
      → (hash_of prims tx =? h) ≡ false
      → contains h (admit tx p) ≡ contains h p
  unfolding admit contains SortedMap.contains SortedMap.add has
  contains-admit tx h p apart = elim (Bool-cases (has (hash_of prims tx) p.all.lookup)) [
    | inl known ↦ rw (admit, SortedMap.contains, known)
    | inr new ↦ rw (
      admit,
      SortedMap.contains,
      SortedMap.add,
      new,
      has,
      lookup-insert_ne (hash_of prims tx) h (cached prims tx) p.all.lookup apart,
    )
  ]

  max_length-admit : (tx : Transaction) (p : TxPool) → (admit tx p).max_length ≡ p.max_length
  unfolding admit
  max_length-admit tx p = ground arith

  prune_other : (p : TxPool) → (count p.all == p.max_length) ≡ false → prune prims p ≡ ok p
  unfolding prune
  prune_other p other = rw (prune, other)

  -- A pool that is over its length only grows.
  add_over :
      (txx : List Transaction) (p : TxPool)
      → p.max_length < count p.all
      → (p' : TxPool) × (add_all prims txx p ≡ ok p')
        × (count p.all ≤ count p'.all)
        × (p'.max_length ≡ p.max_length)
  unfolding add_all
  add_over [] p over = (p, refl, omega arith, refl)
  add_over (tx ∷ txx) p over =
      let kept = prune_other p (ground (arith, over)) in
      let added : add prims tx p ≡ ok (admit tx p) = rw (add-admit tx p, kept) in
      let grown : count p.all ≤ count (admit tx p).all = ground (arith, count-admit tx p) in
      let same = max_length-admit tx p in
      let (p', rest, more, kept_length) =
        add_over txx (admit tx p) (omega (arith, grown, over, same)) in
      (p', rw (add_all, added) rest, omega (arith, grown, more), kept_length ∙ same)

  -- A pool has room for one transaction, and is given two new ones of different hashes. Either call of `Add`
  -- alone comes to `admit`. When the calls overlap, so that both have found the pool not full before either
  -- admits its own, the pool has one transaction more than its length. Whatever is added after that,
  -- call by call, it never loses a transaction again: it stays over its length, and no call prunes it.
  pub overlapping_add :
      (tx tx' : Transaction) (txx : List Transaction) (p : TxPool)
      → count p.all + 1 ≡ p.max_length
      → contains (hash_of prims tx) p ≡ false
      → contains (hash_of prims tx') p ≡ false
      → (hash_of prims tx =? hash_of prims tx') ≡ false
      → let over = admit tx' (admit tx p) in
        (add prims tx p ≡ ok (admit tx p))
        × (add prims tx' p ≡ ok (admit tx' p))
        × (count over.all ≡ p.max_length + 1)
        × (p' : TxPool) × (add_all prims txx over ≡ ok p')
        × (count over.all ≤ count p'.all)
        × (prune prims p' ≡ ok p')
  overlapping_add tx tx' txx p one new new' apart =
      let over = admit tx' (admit tx p) in
      let room = prune_other p (ground (arith, one)) in
      let still = contains-admit tx (hash_of prims tx') p apart ∙ new' in
      let first : count (admit tx p).all ≡ count p.all + 1 = rw (count-admit tx p, new) in
      let second : count over.all ≡ count (admit tx p).all + 1 =
        rw (count-admit tx' (admit tx p), still) in
      let same : over.max_length ≡ p.max_length =
        max_length-admit tx' (admit tx p) ∙ max_length-admit tx p in
      let (p', rest, more, kept) = add_over txx over (omega (arith, first, second, same, one)) in
      (
        rw (add-admit tx p, room),
        rw (add-admit tx' p, room),
        omega (arith, first, second, one),
        p',
        rest,
        more,
        prune_other p' (ground (arith, first, second, same, one, more, kept)),
      )
