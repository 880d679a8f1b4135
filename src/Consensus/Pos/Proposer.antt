-- ===== src/Consensus/Pos/Proposer.antt =====
-- Who proposes a block, and which headers consensus/pos.go accepts.
use blockz.Prelude.{
  ℕ, ◌%◌, ◌<◌, ◌≡◌, sym, ap, ◌∙◌, false, List, some, if◌then◌else◌, length, get_elem?,
  get_elem?-some, ◌==◌, ◌=?◌, bytes_eq, nat_eq, arith, Bool-cases, Option-cases, inl, inr,
  beq_sound, beq_refl,
}
use native.Mathlib.Nat.{mod-lt}
use blockz.Result.{ok, err, double_signed, Result-cases}
use blockz.Map.{Map, lookup, insert}
use blockz.Map.Laws.{lookup-insert_self}
use blockz.Types.{Address, Hash}
use blockz.Core.Data.{Header, Primitives}
use blockz.Core.Block.{block_hasher}
use blockz.Consensus.Pos.{PosEngine, select_proposer, seen_at, set_seen, record_seen, verify_header}

select_from :
    (l : List Address) (height : ℕ)
    → 0 < length l
    → (a : Address) × (get_elem? l (height % length l) ≡ some a)
select_from l height some_active = get_elem?-some l (height % length l) (mod-lt height some_active)

-- With someone in the active set there is a proposer for each height, the member whose index is the
-- height modulo the size of the set: the selection neither fails nor panics.
pub select_proposer_turn :
    (e : PosEngine) (height : ℕ)
    → 0 < length e.active_set
    → (a : Address) × (get_elem? e.active_set (height % length e.active_set) ≡ some a)
      × (select_proposer height e ≡ ok a)
unfolding select_proposer
select_proposer_turn e height some_active =
    let (a, found) = select_from e.active_set height some_active in
    (
      a,
      found,
      let busy : (length e.active_set == 0) ≡ false = ground arith in
          rw (select_proposer, busy, found),
    )

seen_at-set_seen :
    (height : ℕ) (m : Map Address Hash) (e : PosEngine) → seen_at height (set_seen height m e) ≡ m
unfolding seen_at set_seen
seen_at-set_seen height m e = rw (seen_at, set_seen, lookup-insert_self height m e.seen_headers)

kept_by :
    (hash : Hash) (h : Header) (e : PosEngine) {e' : PosEngine}
    → set_seen h.height (insert h.coinbase hash (seen_at h.height e)) e ≡ e'
    → (lookup h.coinbase (seen_at h.height e') ≡ some hash)
      × (e'.active_set ≡ e.active_set)
      × (e'.validators ≡ e.validators)
unfolding set_seen
kept_by hash h e {e'} same = (
  ap (λ x. lookup h.coinbase (seen_at h.height x)) (sym same)
      ∙ ap (lookup h.coinbase)
          (seen_at-set_seen h.height (insert h.coinbase hash (seen_at h.height e)) e)
      ∙ lookup-insert_self h.coinbase hash (seen_at h.height e),
  λ i. (sym same i).active_set,
  λ i. (sym same i).validators,
)

record_seen-inv :
    (hash : Hash) (h : Header) (e : PosEngine) {e' : PosEngine}
    → record_seen hash h e ≡ (e', ok tt)
    → (lookup h.coinbase (seen_at h.height e') ≡ some hash)
      × (e'.active_set ≡ e.active_set)
      × (e'.validators ≡ e.validators)
unfolding record_seen
record_seen-inv hash h e {e'} done =
    let recorded = set_seen h.height (insert h.coinbase hash (seen_at h.height e)) e in
    elim (Option-cases (lookup h.coinbase (seen_at h.height e))) [
      | inl new ↦ kept_by hash h e (ap (λ q. q.0) (rw (record_seen, new) at done))
      | inr (existing, old) ↦ elim (Bool-cases (existing =? hash)) [
        | inl same ↦ kept_by hash h e (ap (λ q. q.0) (rw (record_seen, old, same) at done))
        | inr other ↦ absurd (cc (ap (λ q. q.1) (rw (record_seen, old, other) at done)))
      ]
    ]

select_proposer-active_set :
    (height : ℕ) (e e' : PosEngine)
    → e'.active_set ≡ e.active_set
    → select_proposer height e' ≡ select_proposer height e
unfolding select_proposer
select_proposer-active_set height e e' same = rw (select_proposer, same)

module _ (prims : Primitives) where
  -- An accepted header is by the proposer of its height, and its hash is the one that is
  -- remembered for it. The active set and the stakes stay.
  pub verify_header-inv :
      (e : PosEngine) (h : Header) {e' : PosEngine}
      → verify_header prims e h ≡ (e', ok tt)
      → (select_proposer h.height e ≡ ok h.coinbase)
        × (lookup h.coinbase (seen_at h.height e') ≡ some (block_hasher prims h))
        × (e'.active_set ≡ e.active_set)
        × (e'.validators ≡ e.validators)
  unfolding verify_header record_seen set_seen seen_at
  verify_header-inv e h {e'} done = elim (Result-cases (select_proposer h.height e)) [
    | inr (inl (x, bad)) ↦ absurd (cc (ap (λ q. q.1) (rw (verify_header, bad) at done)))
    | inr (inr (p, bad)) ↦ absurd (cc (ap (λ q. q.1) (rw (verify_header, bad) at done)))
    | inl (expected, selected) ↦ elim (Bool-cases (expected =? h.coinbase)) [
      | inr other ↦ absurd (cc (ap (λ q. q.1) (rw (verify_header, selected, other) at done)))
      | inl this ↦
          let recorded : record_seen (block_hasher prims h) h e ≡ (e', ok tt) =
            rw (verify_header, selected, this) at done in
          let (kept, active, stakes) =
            record_seen-inv (block_hasher prims h) h e {e' = e'} recorded in
          (selected ∙ ap ok (beq_sound this), kept, active, stakes)
    ]
  ]

  -- After a header was accepted, a header with the same height and coinbase is accepted if it has the
  -- same hash, and is refused as a double signature if it has another.
  pub verify_header_again :
      (e : PosEngine) (h g : Header) {e' : PosEngine}
      → verify_header prims e h ≡ (e', ok tt)
      → g.height ≡ h.height
      → g.coinbase ≡ h.coinbase
      → (verify_header prims e' g).1
        ≡ (if block_hasher prims h =? block_hasher prims g then ok tt else err double_signed)
  unfolding verify_header record_seen
  verify_header_again e h g {e'} done same_height same_coinbase =
      let (chosen, kept, active, _) = verify_header-inv e h {e' = e'} done in
      let proposer : select_proposer g.height e' ≡ ok g.coinbase =
        ap (λ n. select_proposer n e') same_height
        ∙ select_proposer-active_set h.height e e' active
        ∙ chosen
        ∙ ap ok (sym same_coinbase) in
      let seen : lookup g.coinbase (seen_at g.height e') ≡ some (block_hasher prims h) =
        ap (λ n. lookup g.coinbase (seen_at n e')) same_height
        ∙ ap (λ a. lookup a (seen_at h.height e')) same_coinbase
        ∙ kept in
      elim (Bool-cases (block_hasher prims h =? block_hasher prims g)) [
        | inl same ↦ rw (verify_header, proposer, beq_refl g.coinbase, record_seen, seen, same)
        | inr apart ↦ rw (verify_header, proposer, beq_refl g.coinbase, record_seen, seen, apart)
      ]
