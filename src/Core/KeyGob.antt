-- ===== src/Core/KeyGob.antt =====
-- crypto/keypair.go: `GobEncode` and `GobDecode` of a public key, over crypto/elliptic. A point of the
-- curve P-256 is its two coordinates.
use blockz.Prelude.{
  ℕ, ◌≡◌, sym, ap, ◌∙◌, Bool, Bool-cases, true, if◌then◌else◌, [], ◌∷◌, Option, none, some,
  Option-cases, inl, inr,
}
use blockz.Result.{Result, ok, err, panic, ok_inj, bad_public_key, off_curve}
use blockz.Types.{Bytes}
use blockz.Core.Data.{PublicKey, Primitives}

-- `elliptic.UnmarshalCompressed`: it reads the encodings of the points on the curve.
pub record Curve (prims : Primitives) : Type 0 where
  pub on_curve : ℕ → ℕ → Bool
  pub unmarshal_compressed : Bytes → Option (ℕ × ℕ)
  pub unmarshal_marshal :
      (x y : ℕ)
      → on_curve x y ≡ true
      → unmarshal_compressed (prims.marshal_compressed x y) ≡ some (x, y)
  pub unmarshal_empty : unmarshal_compressed [] ≡ none

module _ {prims : Primitives} (curve : Curve prims) where
  -- `MarshalCompressed` panics on a point that is not on the curve.
  unfoldable pub gob_encode : PublicKey → Result Bytes
  gob_encode pk = elim pk.key [
    | none ↦ ok []
    | some p ↦
        if curve.on_curve p.0 p.1 then ok (prims.marshal_compressed p.0 p.1) else panic off_curve
  ]

  unfoldable pub gob_decode : Bytes → PublicKey → PublicKey × Result (Unit {0})
  gob_decode [] pk = (record { key = none }, ok tt)
  gob_decode (c ∷ b) pk = elim (curve.unmarshal_compressed (c ∷ b)) [
    | none ↦ (pk, err bad_public_key)
    | some p ↦ (record { key = some p }, ok tt)
  ]

  decode_point :
      (b : Bytes) (pk : PublicKey) (p : ℕ × ℕ)
      → curve.unmarshal_compressed b ≡ some p
      → gob_decode b pk ≡ (record { key = some p }, ok tt)
  unfolding gob_decode
  decode_point [] pk p read = absurd (cc (sym curve.unmarshal_empty ∙ read))
  decode_point (c ∷ b) pk p read = rw (gob_decode, read)

  -- What `GobEncode` writes of a key is what `GobDecode` reads.
  gob_decode-gob_encode :
      (k pk : PublicKey) {b : Bytes} → gob_encode k ≡ ok b → gob_decode b pk ≡ (k, ok tt)
  unfolding gob_encode gob_decode
  gob_decode-gob_encode k pk {b} written = elim (Option-cases k.key) [
    | inl absent ↦
        let empty = ok_inj (rw (gob_encode, absent) at written) in
        rw (← empty) (λ i. (record { key = sym absent i }, ok tt))
    | inr ((x, y), present) ↦ elim (Bool-cases (curve.on_curve x y)) [
      | inr off ↦ absurd (cc (rw (gob_encode, present, off) at written))
      | inl on ↦
          let bytes = ok_inj (rw (gob_encode, present, on) at written) in
          let read = ap curve.unmarshal_compressed (sym bytes) ∙ curve.unmarshal_marshal x y on in
          decode_point b pk (x, y) read ∙ (λ i. (record { key = sym present i }, ok tt))
    ]
  ]
