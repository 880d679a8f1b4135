-- ===== src/Tests.antt =====
-- The theorems at concrete inputs, and the test data they share.
pub mod World
pub mod Machine
pub mod Engines
pub mod Chain
pub mod Nodes
pub mod Wires
pub mod Network
pub mod Syncing
pub mod Pools
pub mod Disk
pub mod Programs
pub mod Generated
pub mod Interface
pub mod Sockets
use blockz.Prelude.{ℕ, ◌%◌, ◌^◌, true, List, [], ◌∷◌, Option, none, some, replicate, ◌++◌, pos}
use blockz.Result.{Result, ok}
use blockz.Types.{Bytes, Address, zero_hash, zero_address}
use blockz.Core.Account.{Account}
use blockz.Core.WorldState.{WorldState}
use blockz.Core.Evm.Machine.{Host}
use blockz.Core.Data.{PublicKey, Signature, Transaction, Header, Block, Primitives}

-- The identity in place of the hash functions.
abbrev pub test_host : Host
test_host = record { max_alloc = 2 ^ 20; sha256 = λ b. b; keccak256 = λ b. b }

-- Signatures that all hold, and encodings by a few of the fields.
abbrev pub test_prims : Primitives
test_prims = record {
  host = test_host;
  marshal_compressed = λ x y. replicate 12 0 ++ replicate 20 (x % 256);
  ecdsa_verify = λ key message s r. ok true;
  ecdsa_sign = λ key message. ok (record { s = some (pos 1); r = some (pos 1) });
  encode_header = λ h. h.height % 256 ∷ h.nonce % 256 ∷ [];
  encode_tx = λ tx. ok tx.payload;
  encode_account = λ acc. ok [];
}

abbrev pub alice : Address
alice = replicate 20 7

abbrev pub bob : Address
bob = replicate 20 9

abbrev pub account_with : ℕ → Account
account_with balance = record {
  nonce = 0;
  balance = balance;
  code_hash = zero_hash;
  storage_root = zero_hash;
  storage = [];
}

-- Alice has 10 and Bob has 1.
abbrev pub two_accounts : WorldState
two_accounts = record {
  accounts = (alice, account_with 10) ∷ (bob, account_with 1) ∷ [];
  contract_code = [];
}

-- Alice sends 3 to Bob, whose code is `STOP`.
abbrev pub test_tx : Transaction
test_tx = record {
  payload = 0 ∷ [];
  to = bob;
  value = 3;
  nonce = 0;
  gas_limit = 100;
  gas_price = 0;
  from = record { key = some (7, 0) };
  signature = some (record { s = some (pos 1); r = some (pos 1) });
  hash = zero_hash;
  first_seen = 0;
}

abbrev pub test_header : ℕ → Header
test_header height = record {
  version = 1;
  data_hash = 0 ∷ [];
  prev_block_hash = 0 ∷ 0 ∷ [];
  state_root = zero_hash;
  height = height;
  timestamp = 0;
  nonce = 0;
  difficulty = 4;
  coinbase = alice;
}

abbrev pub test_block : ℕ → List Transaction → Block
test_block height txx = record {
  header = test_header height;
  transactions = txx;
  evidence = [];
  validator = record { key = some (7, 0) };
  signature = some (record { s = some (pos 1); r = some (pos 1) });
  hash = zero_hash;
}
