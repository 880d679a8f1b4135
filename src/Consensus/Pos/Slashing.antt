-- ===== src/Consensus/Pos/Slashing.antt =====
-- What slashing in consensus/pos.go does to a validator.
use blockz.Prelude.{
  ℕ, zero, suc, ◌/◌, ◌%◌, ◌≡◌, ◌≢◌, ap, ◌∙◌, false, List, [], ◌∷◌, some, if◌then◌else◌, length,
  get_elem?, ◌==◌, ◌=?◌, bytes_eq, nat_eq, arith, Bool-cases, Option-cases, inl, inr, bytes_beq_iff,
}
use blockz.Result.{ok, ok_inj}
use blockz.Map.{lookup}
use blockz.Map.Laws.{lookup-insert}
use blockz.Types.{Address}
use blockz.Consensus.Pos.{PosEngine, select_proposer, without, slash}

cons-get :
    (addr x : Address) (l : List Address)
    → (x =? addr) ≡ false
    → ((i : ℕ) → get_elem? l i ≢ some addr)
    → (i : ℕ) → get_elem? (x ∷ l) i ≢ some addr
cons-get addr x l other before zero h = ground (arith, bytes_beq_iff x addr)
cons-get addr x l other before (suc i) h = before i h

-- What is left of a list without an address does not have it at any index.
without-get : (addr : Address) (l : List Address) (i : ℕ) → get_elem? (without addr l) i ≢ some addr
unfolding without
without-get addr [] i h = cc
without-get addr (x ∷ l) i h = elim (Bool-cases (x =? addr)) [
  | inl this ↦ without-get addr l i (rw (without, this) at h)
  | inr other ↦
      cons-get addr x (without addr l) other (without-get addr l) i (rw (without, other) at h)
]

select_proposer-active :
    (e : PosEngine) (height : ℕ) {a : Address}
    → select_proposer height e ≡ ok a
    → (i : ℕ) × (get_elem? e.active_set i ≡ some a)
unfolding select_proposer
select_proposer-active e height {a} h = elim (Bool-cases (length e.active_set == 0)) [
  | inl empty ↦ absurd (cc (rw (select_proposer, empty) at h))
  | inr busy ↦ elim (Option-cases (get_elem? e.active_set (height % length e.active_set))) [
    | inl out ↦ absurd (cc (rw (select_proposer, busy, out) at h))
    | inr (x, found) ↦
        let same : ok x ≡ ok a = rw (select_proposer, busy, found) at h in
        (height % length e.active_set, found ∙ ap some (ok_inj same))
  ]
]

-- A validator with a stake that is slashed loses half of it and every place in the active set, so
-- it is proposer at no height after that. The stakes of the others stay.
pub slash_lem :
    (addr : Address) (e : PosEngine) {stake : ℕ}
    → lookup addr e.validators ≡ some stake
    → ((other : Address)
        → lookup other (slash addr e).validators
          ≡ (if addr =? other then some (stake / 2) else lookup other e.validators))
      × ((height : ℕ) → select_proposer height (slash addr e) ≢ ok addr)
unfolding slash
slash_lem addr e {stake} known = (
  λ other. rw (slash, known) (lookup-insert addr other (stake / 2) e.validators),
  λ height chosen.
      let (i, found) = select_proposer-active (slash addr e) height chosen in
      without-get addr e.active_set i (rw (slash, known) at found),
)
