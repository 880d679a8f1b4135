-- ===== src/Core/Data.antt =====
-- The records of core/transaction.go, core/block.go and crypto/keypair.go, and what the code takes
-- from libraries: hashes, signatures and the gob encoding.
pub mod Equality
use blockz.Prelude.{ℕ, ℤ, List, Option, Bool}
use blockz.Result.{Result}
use blockz.Types.{Bytes, Address, Hash}
use blockz.Core.Account.{Account}
use blockz.Core.Evm.Machine.{Host}

-- A point of the curve P-256; a key may be the nil pointer.
pub record PublicKey : Type 0 where
  pub key : Option (ℕ × ℕ)

pub record PrivateKey : Type 0 where
  pub secret : ℕ
  pub point : ℕ × ℕ

pub record Signature : Type 0 where
  pub s : Option ℤ
  pub r : Option ℤ

pub record Transaction : Type 0 where
  pub payload : Bytes
  pub to : Address
  pub value : ℕ
  pub nonce : ℕ
  pub gas_limit : ℕ
  pub gas_price : ℕ
  pub from : PublicKey
  pub signature : Option Signature
  pub hash : Hash
  pub first_seen : ℕ

pub record Header : Type 0 where
  pub version : ℕ
  pub data_hash : Hash
  pub prev_block_hash : Hash
  pub state_root : Hash
  pub height : ℕ
  pub timestamp : ℕ
  pub nonce : ℕ
  pub difficulty : ℕ
  pub coinbase : Address

-- A block whose header pointer is nil is not modelled.
pub record Block : Type 0 where
  pub header : Header
  pub transactions : List Transaction
  pub evidence : List Header
  pub validator : PublicKey
  pub signature : Option Signature
  pub hash : Hash

-- The library functions that the code calls. A gob encoder may fail, but `Header.Bytes` drops its
-- error; `ecdsa.Verify` is handed whatever the pointers hold.
pub record Primitives : Type 0 where
  pub host : Host
  pub marshal_compressed : ℕ → ℕ → Bytes
  pub ecdsa_verify : Option (ℕ × ℕ) → Bytes → Option ℤ → Option ℤ → Result Bool
  pub ecdsa_sign : PrivateKey → Bytes → Result Signature
  pub encode_header : Header → Bytes
  pub encode_tx : Transaction → Result Bytes
  pub encode_account : Account → Result Bytes
