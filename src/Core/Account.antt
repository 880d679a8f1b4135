-- ===== src/Core/Account.antt =====
-- core/account.go: an account of the chain.
use blockz.Prelude.{ℕ, Bool, not, ◌≡◌, [], bytes_eq, arith}
use blockz.Map.{Map, lookup, rebuild}
use blockz.Map.Laws.{lookup-rebuild}
use blockz.Types.{Bytes, Hash, zero_hash, is_zero}

pub record Account : Type 0 where
  pub nonce : ℕ
  pub balance : ℕ
  pub code_hash : Hash
  pub storage_root : Hash
  pub storage : Map Hash Bytes

unfoldable pub new_account : ℕ → Account
new_account balance = record {
  nonce = 0;
  balance = balance;
  code_hash = zero_hash;
  storage_root = zero_hash;
  storage = [];
}

unfoldable pub deep_copy : Account → Account
unfolding rebuild
deep_copy a = record {
  nonce = a.nonce;
  balance = a.balance;
  code_hash = a.code_hash;
  storage_root = a.storage_root;
  storage = rebuild (λ v. v) a.storage;
}

unfoldable pub is_contract : Account → Bool
unfolding is_zero
is_contract a = not (is_zero a.code_hash)

pub lookup-deep_copy :
    (a : Account) (k : Hash) → lookup k (deep_copy a).storage ≡ lookup k a.storage
unfolding deep_copy
lookup-deep_copy a k = ground (arith, lookup-rebuild (λ (v : Bytes). v) k a.storage)
