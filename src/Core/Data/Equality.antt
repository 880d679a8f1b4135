-- ===== src/Core/Data/Equality.antt =====
-- `reflect.DeepEqual` on transactions: the equality of all the fields, through the pointers.
use blockz.Prelude.{
  ℕ, ℤ, pos, negsuc, Bool, true, false, ◌&&◌, ◌≡◌, ◌↔◌, refl, Option, none, some, ◌=?◌, nat_eq,
  bytes_eq, bytes_beq_iff, ==_iff, arith,
}
use blockz.Prelude.Equality.{Eq}
use blockz.Core.Data.{Signature, Transaction}

unfoldable pub int_beq : ℤ → ℤ → Bool
int_beq (pos m) (pos n) = m =? n
int_beq (negsuc m) (negsuc n) = m =? n
int_beq a b = false

pub int_beq_iff : (a b : ℤ) → (int_beq a b ≡ true) ↔ (a ≡ b)
unfolding int_beq
int_beq_iff (pos m) (pos n) = ground (arith, ==_iff m n)
int_beq_iff (pos m) (negsuc n) = (λ h. cc, λ h. cc)
int_beq_iff (negsuc m) (pos n) = (λ h. cc, λ h. cc)
int_beq_iff (negsuc m) (negsuc n) = ground (arith, ==_iff m n)

instance abbrev pub int_eq : Eq ℤ
int_eq = record { beq = int_beq; beq_iff = int_beq_iff }

unfoldable pub option_beq {ℓ} : {A : Type ℓ} ⦃e : Eq A⦄ → Option A → Option A → Bool
option_beq none none = true
option_beq (some a) (some b) = a =? b
option_beq a b = false

pub option_beq_iff {ℓ} :
    {A : Type ℓ} ⦃e : Eq A⦄ (a b : Option A) → (option_beq a b ≡ true) ↔ (a ≡ b)
unfolding option_beq
option_beq_iff none none = (λ h. refl, λ h. refl)
option_beq_iff none (some b) = (λ h. cc, λ h. cc)
option_beq_iff (some a) none = (λ h. cc, λ h. cc)
option_beq_iff ⦃e⦄ (some a) (some b) = ground (arith, e.beq_iff a b)

instance abbrev pub option_eq {ℓ} : {A : Type ℓ} ⦃e : Eq A⦄ → Eq (Option A)
option_eq = record { beq = option_beq; beq_iff = option_beq_iff }

unfoldable pub point_beq : ℕ × ℕ → ℕ × ℕ → Bool
point_beq p q = (p.0 =? q.0) && (p.1 =? q.1)

pub point_beq_iff : (p q : ℕ × ℕ) → (point_beq p q ≡ true) ↔ (p ≡ q)
unfolding point_beq
point_beq_iff p q = ground (arith, ==_iff p.0 q.0, ==_iff p.1 q.1)

instance abbrev pub point_eq : Eq (ℕ × ℕ)
point_eq = record { beq = point_beq; beq_iff = point_beq_iff }

unfoldable pub signature_beq : Signature → Signature → Bool
signature_beq a b = (a.s =? b.s) && (a.r =? b.r)

pub signature_beq_iff : (a b : Signature) → (signature_beq a b ≡ true) ↔ (a ≡ b)
unfolding signature_beq
signature_beq_iff a b = ground (arith, option_beq_iff a.s b.s, option_beq_iff a.r b.r)

instance abbrev pub signature_eq : Eq Signature
signature_eq = record { beq = signature_beq; beq_iff = signature_beq_iff }

unfoldable pub transaction_beq : Transaction → Transaction → Bool
transaction_beq a b =
    (a.payload =? b.payload)
    && ((a.to =? b.to)
        && ((a.value =? b.value)
            && ((a.nonce =? b.nonce)
                && ((a.gas_limit =? b.gas_limit)
                    && ((a.gas_price =? b.gas_price)
                        && ((a.from.key =? b.from.key)
                            && ((a.signature =? b.signature)
                                && ((a.hash =? b.hash) && (a.first_seen =? b.first_seen)))))))))

pub transaction_beq_iff : (a b : Transaction) → (transaction_beq a b ≡ true) ↔ (a ≡ b)
unfolding transaction_beq
transaction_beq_iff a b = ground (
  arith,
  bytes_beq_iff a.payload b.payload,
  bytes_beq_iff a.to b.to,
  bytes_beq_iff a.hash b.hash,
  option_beq_iff a.from.key b.from.key,
  option_beq_iff a.signature b.signature,
)

instance abbrev pub transaction_eq : Eq Transaction
transaction_eq = record { beq = transaction_beq; beq_iff = transaction_beq_iff }
