-- ===== src/Consensus/Pow/Mining.antt =====
-- What `Seal` of consensus/pow.go finds, and when `VerifyHeader` accepts it.
use blockz.Prelude.{
  ℕ, zero, suc, ◌+◌, ◌%◌, ◌<◌, ◌≤◌, ◌≡◌, ◌≢◌, ◌↔◌, sym, ap, ◌∙◌, Bool, true, false, ◌&&◌, ◌==◌,
  arith, Bool-cases, inl, inr,
}
use blockz.Result.{Result, ok, Result-cases}
use blockz.Core.Evm.Word.{set_bytes}
use blockz.Core.Data.{Header, Primitives}
use blockz.Core.Block.{block_hasher}
use blockz.Consensus.Pow.{
  PowEngine, max_uint64, target, prepare, satisfies, verify_header, seal_from, seal,
}

module _ (prims : Primitives) where
  -- `VerifyHeader` accepts a header exactly when the difficulty that the header names has a target, and
  -- the header's hash is at most that.
  pub verify_header_iff :
      (h : Header)
      → (verify_header prims h ≡ ok tt) ↔ (
          (bound : ℕ) × (target prims h.difficulty ≡ ok bound)
          × (set_bytes (block_hasher prims h) ≤ bound))
  unfolding verify_header satisfies
  verify_header_iff h = (
    λ accepted. elim (Result-cases (target prims h.difficulty)) [
      | inr (inl (e, bad)) ↦ absurd (cc (rw (verify_header, bad) at accepted))
      | inr (inr (p, bad)) ↦ absurd (cc (rw (verify_header, bad) at accepted))
      | inl (bound, set) ↦
          let good = rw (verify_header, set) at accepted in (bound, set, ground (arith, good))
    ],
    λ (bound, set, low).
        let good : satisfies prims bound h ≡ true = ground arith in rw (verify_header, set, good),
  )

  seal_from-inv :
      (timed_out : ℕ → Bool) (bound left n : ℕ) (h : Header) {h' : Header}
      → seal_from prims timed_out bound left n h ≡ (h', ok tt)
      → (m : ℕ) × (n ≤ m)
        × (m < n + left)
        × (h' ≡ record h { nonce = m })
        × (satisfies prims bound h' ≡ true)
        × ((k : ℕ) → n ≤ k → k < m → satisfies prims bound (record h { nonce = k }) ≡ false)
  unfolding seal_from
  seal_from-inv timed_out bound zero n h done = absurd (cc (ap (λ q. q.1) done))
  seal_from-inv timed_out bound (suc left) n h {h'} done =
      elim (Bool-cases (satisfies prims bound (record h { nonce = n }))) [
        | inl good ↦
            let same : record h { nonce = n } ≡ h' =
              ap (λ (q : Header × Result (Unit {0})). q.0) (rw (seal_from, good) at done) in
            (
              n,
              omega arith,
              omega arith,
              sym same,
              rw same at good,
              λ k low high. absurd (omega arith),
            )
        | inr bad ↦ elim (Bool-cases ((suc n % 100000 == 0) && timed_out (suc n))) [
          | inl late ↦ absurd (cc (ap (λ q. q.1) (rw (seal_from, bad, late) at done)))
          | inr on ↦
              let (m, low, high, same, good, before) =
                seal_from-inv timed_out bound left (suc n) (record h { nonce = n }) {h' = h'}
                  (rw (seal_from, bad, on) at done) in
              (
                m,
                omega arith,
                omega arith,
                same,
                good,
                λ k below k<m. elim (Bool-cases (k == n)) [
                  | inl this ↦ let same_nonce : k ≡ n = ground arith in rw same_nonce bad
                  | inr that ↦ before k (ground arith) k<m
                ],
              )
        ]
      ]

  -- Where `Seal` succeeds, the engine's difficulty has a target.
  seal-inv :
      (timed_out : ℕ → Bool) (e : PowEngine) (h : Header) {h' : Header}
      → seal prims timed_out e h ≡ (h', ok tt)
      → (bound : ℕ) × (target prims e.target_difficulty ≡ ok bound)
        × (seal_from prims timed_out bound max_uint64 0 h ≡ (h', ok tt))
  unfolding seal
  seal-inv timed_out e h {h'} sealed = elim (Result-cases (target prims e.target_difficulty)) [
    | inr (inl (x, bad)) ↦ absurd (cc (ap (λ q. q.1) (rw (seal, bad) at sealed)))
    | inr (inr (p, bad)) ↦ absurd (cc (ap (λ q. q.1) (rw (seal, bad) at sealed)))
    | inl (bound, set) ↦ (bound, set, rw (seal, set) at sealed)
  ]

  -- A header that `Prepare` and then `Seal` have finished with is accepted by `VerifyHeader`. The engine's
  -- difficulty then has a target that can be allocated, and the header is the given one with that
  -- difficulty and with the first nonce that satisfies the target.
  pub seal-verify_header :
      (timed_out : ℕ → Bool) (e : PowEngine) (h : Header) {h₁ h₂ : Header}
      → prepare e h ≡ ok h₁
      → seal prims timed_out e h₁ ≡ (h₂, ok tt)
      → (verify_header prims h₂ ≡ ok tt)
        × (bound : ℕ) × (target prims e.target_difficulty ≡ ok bound)
        × (m : ℕ) × (m < max_uint64)
        × (h₂ ≡ record h { difficulty = e.target_difficulty; nonce = m })
        × ((k : ℕ) → k < m → satisfies prims bound (record h₁ { nonce = k }) ≡ false)
  unfolding prepare verify_header
  seal-verify_header timed_out e h {h₁} {h₂} prepared sealed =
      let (bound, set, found) = seal-inv timed_out e h₁ {h' = h₂} sealed in
      let (m, low, high, same, good, before) =
        seal_from-inv timed_out bound max_uint64 0 h₁ {h' = h₂} found in
      let start : record h { difficulty = e.target_difficulty } ≡ h₁ = ground arith in
      let whole : h₂ ≡ record h { difficulty = e.target_difficulty; nonce = m } =
        same ∙ ap (λ (g : Header). record g { nonce = m }) (sym start) in
      let hard : target prims h₂.difficulty ≡ ok bound =
        ap (λ (g : Header). target prims g.difficulty) whole ∙ set in
      (
        rw (verify_header, hard, good),
        bound,
        set,
        m,
        high,
        whole,
        λ k k<m. before k (omega arith) k<m,
      )

  seal_from-finds :
      (bound left n : ℕ) (h : Header) (m : ℕ)
      → n ≤ m
      → m < n + left
      → satisfies prims bound (record h { nonce = m }) ≡ true
      → (h' : Header) × (seal_from prims (λ _. false) bound left n h ≡ (h', ok tt))
  unfolding seal_from
  seal_from-finds bound zero n h m low high good = absurd (omega arith)
  seal_from-finds bound (suc left) n h m low high good =
      elim (Bool-cases (satisfies prims bound (record h { nonce = n }))) [
        | inl found ↦ (record h { nonce = n }, rw (seal_from, found))
        | inr bad ↦
            let later : m ≢ n = λ same. cc (rw same at good) in
            let (h', done) =
              seal_from-finds bound left (suc n) (record h { nonce = n }) m (omega (arith, later))
                (omega arith) good in
            let quiet : ((suc n % 100000 == 0) && false) ≡ false = ground arith in
            (h', rw (seal_from, bad, quiet) done)
      ]

  -- Where some nonce below 2^64 - 1 satisfies the target, `Seal` finds one, if the clock never
  -- reports a timeout.
  pub seal_finds :
      (e : PowEngine) (h : Header) (m : ℕ) {bound : ℕ}
      → target prims e.target_difficulty ≡ ok bound
      → m < max_uint64
      → satisfies prims bound (record h { nonce = m }) ≡ true
      → (h' : Header) × (seal prims (λ _. false) e h ≡ (h', ok tt))
  unfolding seal
  seal_finds e h m {bound} set small good =
      let (h', found) = seal_from-finds bound max_uint64 0 h m (omega arith) (omega arith) good in
      (h', rw (seal, set) found)
