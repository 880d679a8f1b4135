-- ===== src/Program.antt =====
-- main.go: what the program builds from its flags. The network that it starts in, the store and the
-- generated keys are parameters; logging, signals and the parsing of the flags are left out.
pub mod Seeds
pub mod Flags
pub mod Genesis
pub mod Servers
pub mod Engines
pub mod Generator
use blockz.Prelude.{
  ℕ, ◌/◌, length, ◌==◌, true, false, Bool, List, [], ◌∷◌, Option, none, some, if◌then◌else◌, ◌=?◌,
  bytes_eq,
}
use blockz.Result.{Result, ok, err, panic, ◌>>=◌, attempt}
use blockz.Map.{Map, insert}
use blockz.Types.{Bytes, Address, address_from_bytes}
use blockz.Text.{codes, to_lower}
use blockz.Text.Hex.{hex_decode}
use blockz.Core.Data.{PrivateKey, Transaction}
use blockz.Core.Transaction.{new_transaction, tx_sign}
use blockz.Consensus.Pow.{PowEngine, new_pow_engine}
use blockz.Consensus.Pos.{PosEngine, new_pos_engine, add_validator}
use blockz.Network.LocalTransport.{Hub, new_local_transport, connect}
use blockz.Network.Message.{NetAddr, Message, new_message}
use blockz.Network.Message.MessageType
use blockz.Network.Server.{Env, Server}
use blockz.Network.Server.Creation.{new_server}
use blockz.Program.Seeds.{split}

abbrev pub genesis_alloc_total : ℕ
genesis_alloc_total = 1000000000

-- The keys of `devAddresses`
unfoldable pub dev_addresses : List Bytes
dev_addresses =
    codes "f39Fd6e51aad88F6F4ce6aB8827279cffFb92266"
    ∷ codes "70997970C51812dc3A010C7d01b50e0d17dc79C8"
    ∷ codes "3C44CdDdB6a900fa2b585dd299e03d12FA4293BC"
    ∷ codes "90F79bf6EB2c4f870365E785982E1f101E93b906"
    ∷ codes "15d34AAf54267DB7D7c367839AAf71A00a2C6A65"
    ∷ []

-- The loop of `createGenesisAllocs`: a key that is no address is skipped.
unfoldable pub fund : ℕ → List Bytes → Map Address ℕ → Result (Map Address ℕ)
fund amount [] allocs = ok allocs
fund amount (addr_hex ∷ rest) allocs = elim (hex_decode addr_hex) [
  | err e ↦ fund amount rest allocs
  | panic p ↦ panic p
  | ok decoded ↦ elim (length decoded == 20) [
    | true ↦ address_from_bytes decoded >>= λ addr. fund amount rest (insert addr amount allocs)
    | false ↦ fund amount rest allocs
  ]
]

unfoldable pub create_genesis_allocs : Address → Result (Map Address ℕ)
create_genesis_allocs validator_addr =
    fund (genesis_alloc_total / 2 / length dev_addresses) dev_addresses
      (insert validator_addr (genesis_alloc_total / 2) [])

-- What `createConsensusEngine` returns
pub data Engine : Type 0 where
  pow : PowEngine → Engine
  pos : PosEngine → Engine

unfoldable pub create_consensus_engine : Bytes → ℕ → Address → Engine
create_consensus_engine mode difficulty validator_addr =
    if to_lower mode =? codes "pos"
    then pos (add_validator validator_addr 1000000 new_pos_engine)
    else pow (new_pow_engine difficulty)

-- `connectSym`
unfoldable pub connect_sym : NetAddr → NetAddr → Hub → Hub
connect_sym t1 t2 hub = connect t2 t1 (connect t1 t2 hub)

abbrev pub local_addr : NetAddr
local_addr = codes "LOCAL"

abbrev pub remote_a_addr : NetAddr
remote_a_addr = codes "REMOTE_A"

abbrev pub remote_b_addr : NetAddr
remote_b_addr = codes "REMOTE_B"

abbrev pub remote_c_addr : NetAddr
remote_c_addr = codes "REMOTE_C"

-- The transports of `runDevMode` before they are connected
unfoldable pub dev_transports : Hub
dev_transports =
    (local_addr, new_local_transport local_addr)
    ∷ (remote_a_addr, new_local_transport remote_a_addr)
    ∷ (remote_b_addr, new_local_transport remote_b_addr)
    ∷ (remote_c_addr, new_local_transport remote_c_addr)
    ∷ []

-- The network of `runDevMode`
unfoldable pub dev_mesh : Hub
dev_mesh = connect_sym remote_b_addr remote_c_addr (
    connect_sym remote_a_addr remote_c_addr (
      connect_sym remote_a_addr remote_b_addr (
        connect_sym local_addr remote_c_addr (
          connect_sym local_addr remote_b_addr
            (connect_sym local_addr remote_a_addr dev_transports)))))

-- The payload of `sampleContract`
unfoldable pub sample_contract : Bytes
sample_contract = 96 ∷ 5 ∷ 96 ∷ 0 ∷ 85 ∷ 96 ∷ 0 ∷ 84 ∷ 96 ∷ 0 ∷ 82 ∷ 96 ∷ 32 ∷ 96 ∷ 0 ∷ 243 ∷ []

-- The seeds of `runProductionMode`
unfoldable pub seed_nodes : Bytes → List NetAddr
seed_nodes flag = if flag =? [] then [] else split 44 flag

-- The transaction of `sendTestTransaction`, before it is signed
unfoldable pub test_transaction : Transaction
test_transaction = record (new_transaction sample_contract) { gas_limit = 10000; gas_price = 1 }

module _ {T C N Tr : Type 0} (env : Env T C N Tr) where
  -- `mustCreateServer`; a result other than a server ends the program.
  unfoldable pub must_create_server :
      ℕ → Bytes → Tr → Option PrivateKey → C → T → N → Option (Result (Server T C N Tr))
  must_create_server rounds id tr pk engine storage n =
      new_server env rounds id [] (tr ∷ []) pk (some engine) storage n

  -- The server of `runProductionMode`
  unfoldable pub production_server :
      ℕ → Bytes → Bool → Bytes → PrivateKey → C → Tr → T → N → Option (Result (Server T C N Tr))
  production_server rounds id mine seeds validator_key engine tr storage n =
      new_server env rounds id (seed_nodes seeds) (tr ∷ [])
        (if mine then some validator_key else none) (some engine) storage n

  -- The bytes that `sendTestTransaction` sends, with the key that it has generated
  unfoldable pub test_message : PrivateKey → Result Bytes
  test_message priv_key = do
    tx ← tx_sign env.prims priv_key test_transaction
    content ← env.prims.encode_tx tx
    ok (env.wire.message_bytes (new_message MessageType.tx content))

  unfoldable pub send_test_transaction : PrivateKey → Tr → N → NetAddr → N × Result (Unit {0})
  send_test_transaction priv_key tr n to =
      attempt n (test_message priv_key) λ payload. env.transports.send_message tr n to payload
