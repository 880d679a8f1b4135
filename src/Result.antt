-- ===== src/Result.antt =====
-- What a Go call comes to: values, a non-nil `error`, or a run-time panic. An error stands for the
-- message that the code builds, without the values that are printed in it.
use blockz.Prelude.{if◌then◌else◌, ◌≡◌, refl, ap, ℕ, List, Bool, ◌⊎◌, inl, inr}

pub data Error : Type 0 where
  -- core/world_state.go
  zero_transfer sender_missing insufficient_balance account_missing key_missing : Error
  -- core/vm.go
  out_of_gas push_out_of_bounds dup_out_of_bounds swap_out_of_bounds invalid_jump : Error
  reverted : List ℕ → Error
  -- core/transaction.go, core/block.go, core/encoding.go
  tx_unsigned tx_bad_signature block_unsigned block_bad_signature bad_data_hash : Error
  codec_failure : Error
  -- core/validator.go, core/blockchain.go, core/storage.go
  already_contains too_high bad_prev_hash : Error
  block_not_found tx_not_found database_failure : Error
  -- consensus/
  pow_unsatisfied mining_timeout nonce_exhausted : Error
  no_validators unexpected_proposer double_signed : Error
  -- network/
  bad_hex missing_parameter method_not_found parse_error bad_public_key : Error
  peer_not_found bad_message_type sign_failure : Error

pub data Panic : Type 0 where
  nil_dereference index_out_of_range slice_out_of_range makeslice type_assertion off_curve : Panic

pub data Result {ℓ} (A : Type ℓ) : Type ℓ where
  ok : A → Result A
  err : Error → Result A
  panic : Panic → Result A

-- `if err != nil { return err }` in front of the rest of a function
infixl 5 ◌>>=◌ ◌>>◌
abbrev pub ◌>>=◌ {ℓ κ} : {A : Type ℓ} {B : Type κ} → Result A → (A → Result B) → Result B
panic p >>= rest = panic p
err e >>= rest = err e
ok a >>= rest = rest a

-- `if !test { return e }`
abbrev pub guard : Bool → Error → Result (Unit {0})
guard test e = if test then ok tt else err e

abbrev pub ◌>>◌ {ℓ} : {B : Type ℓ} → Result (Unit {0}) → Result B → Result B
first >> rest = first >>= λ _. rest

-- Whether the call made a run-time panic.
abbrev pub Panics {ℓ} : {A : Type ℓ} → Result A → Type 0
Panics (ok a) = ⊥
Panics (err e) = ⊥
Panics (panic p) = Unit

pub Result-cases {ℓ} :
    {A : Type ℓ} (r : Result A)
    → ((a : A) × (r ≡ ok a)) ⊎ (((e : Error) × (r ≡ err e)) ⊎ ((p : Panic) × (r ≡ panic p)))
Result-cases (ok a) = inl (a, refl)
Result-cases (err e) = inr (inl (e, refl))
Result-cases (panic p) = inr (inr (p, refl))

pub ok_inj {ℓ} : {A : Type ℓ} {a b : A} → ok a ≡ ok b → a ≡ b
ok_inj h = cc

-- The next part runs on the state that the last one left, unless that one failed.
abbrev pub and_then {ℓ} :
    {S : Type ℓ} → S × Result (Unit {0}) → (S → S × Result (Unit {0})) → S × Result (Unit {0})
and_then (s, ok u) f = f s
and_then (s, err e) f = (s, err e)
and_then (s, panic p) f = (s, panic p)

pub and_then-ok {ℓ} :
    {S : Type ℓ} (p : S × Result (Unit {0})) (f : S → S × Result (Unit {0})) {s' : S}
    → and_then p f ≡ (s', ok tt)
    → (p.1 ≡ ok tt) × (f p.0 ≡ (s', ok tt))
and_then-ok (s, ok u) f h = (refl, h)
and_then-ok (s, err e) f h = absurd (cc (ap (λ q. q.1) h))
and_then-ok (s, panic p) f h = absurd (cc (ap (λ q. q.1) h))

-- A result that the rest of a method needs; where it is none, the state stays as it is.
abbrev pub attempt {ℓ κ μ} :
    {S : Type ℓ} {A : Type κ} {B : Type μ} → S → Result A → (A → S × Result B) → S × Result B
attempt s (ok a) f = f a
attempt s (err e) f = (s, err e)
attempt s (panic p) f = (s, panic p)

-- An error of a call that the caller replaces by one of its own.
abbrev pub or_error {ℓ} : {A : Type ℓ} → Error → Result A → Result A
or_error e (ok a) = ok a
or_error e (err e') = err e
or_error e (panic p) = panic p

abbrev pub map_ok {ℓ κ} : {A : Type ℓ} {B : Type κ} → (A → B) → Result A → Result B
map_ok f (ok a) = ok (f a)
map_ok f (err e) = err e
map_ok f (panic p) = panic p

pub attempt-ok {ℓ κ} :
    {S : Type ℓ} {A : Type κ} (s : S) (r : Result A) (f : A → S × Result (Unit {0})) {s' : S}
    → attempt s r f ≡ (s', ok tt)
    → (a : A) × (r ≡ ok a) × (f a ≡ (s', ok tt))
attempt-ok s (ok a) f h = (a, refl, h)
attempt-ok s (err e) f h = absurd (cc (ap (λ q. q.1) h))
attempt-ok s (panic p) f h = absurd (cc (ap (λ q. q.1) h))

pub bind_inv {ℓ κ} :
    {A : Type ℓ} {B : Type κ} (r : Result A) (f : A → Result B) {b : B}
    → (r >>= f) ≡ ok b
    → (a : A) × (r ≡ ok a) × (f a ≡ ok b)
bind_inv (ok a) f h = (a, refl, h)
bind_inv (err e) f h = absurd (cc h)
bind_inv (panic p) f h = absurd (cc h)
