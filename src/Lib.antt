-- ===== src/Lib.antt =====
-- Blockz is a blockchain node in Go: accounts with balances, transactions that carry code for a small
-- stack machine, signed blocks, a chain with a validator, and two consensus engines.
--
-- How the parts interact. `Blockchain.AddBlock` (core/blockchain.go) asks the validator
-- (core/validator.go) whether a block fits on the chain, which asks the engine (consensus/pow.go or
-- consensus/pos.go) about the header and the block about its signatures. It then runs each transaction:
-- its code on the machine (core/vm.go), which reads and writes the storage of accounts through an
-- interface of the world state (core/world_state.go), then its transfer, then the sender's nonce. It
-- slashes by the block's evidence, mints the reward, appends the header and puts the block in the store
-- (core/storage.go). A node (network/server.go) has a chain and a pool of transactions
-- (network/txpool.go). Messages of other nodes (network/rpc.go) reach it over transports: it takes their
-- transactions and blocks, passes them on, and answers requests for blocks, for its status and for its
-- peers. A validator builds blocks from the pool, which its engine seals. Clients ask a node over JSON-RPC
-- (api/rpc.go) for balances and headers, and give it transactions. The program (main.go) starts either
-- four nodes over transports in memory or one node over TCP.
--
-- Files and what they model:
--   Result          the outcome of a Go call: values, an error, or a run-time panic
--   Map, Map/Defs   a Go map as a list of keys with values; Map/Laws has its lemmas
--   Text            strings as bytes, with hexadecimal encodings and numbers in Text/Hex: the library
--                   functions that the code calls
--   Types           types/hash.go, types/address.go; Types/Collection: types/list.go
--   Core/Account, Core/WorldState
--                   core/account.go and core/world_state.go; a method returns the new state beside its
--                   result. Root is `StateRoot`; the other child modules add up the balances and follow
--                   transfers, storage and copies.
--   Core/StateDb    the interface StateDB of core/vm.go, with the law that the machine relies on;
--                   Core/WorldState/Contracts has the instance.
--   Core/Evm        core/vm.go: Word (big.Int to 256 bits), Stack, Memory, Machine (opcodes, state, gas),
--                   Exec (one function per case of the switch), Run (the loop); Gas, Loop, Invariant,
--                   Arithmetic, Storage and Unbounded prove.
--   Core/Data       the records of core/transaction.go, core/block.go, crypto/keypair.go
--   Core/Transaction, Core/Block
--                   hashing, signing and verifying
--   Core/KeyGob     the gob methods of a public key in crypto/keypair.go
--   Core/Consensus  the interface of core/consensus.go, with the two methods that core/blockchain.go
--                   asks for by type assertions
--   Core/Storage    the interface of core/storage.go with the law of a read after a put;
--                   Core/Storage/Memory is MemoryStore, and its child has the instance.
--                   Core/Storage/LevelDb is core/leveldb_storage.go: Keys, Puts and Agreement prove.
--   Core/Codec      core/encoding.go, as a parameter
--   Core/Blockchain core/blockchain.go and core/validator.go over any store and engine; Start has the
--                   constructors, Reads the reads of blocks, Chain the invariant of a chain.
--   Consensus       the engines of consensus/, as instances of the interface, and consensus/fork_choice.go
--   Network/SortedMap, Network/TxPool
--                   network/txpool.go; Index and Fifo have their invariants, and Race
--                   two calls of `Add` that overlap.
--   Network/Message network/rpc.go: messages and their decoding
--   Network/NetAddr the two names of the local host
--   Network/LocalTransport
--                   network/local_transport.go, with channels that are never full
--   Network/TcpTransport
--                   network/tcp_transport.go over any sockets; Relay proves.
--   Network/Server  network/server.go: the state, sending, transactions and blocks. Sync has status
--                   messages and batches of blocks, Creation the building of blocks and NewServer,
--                   Peers the peers and seeds, Dispatch the switch over messages and the loop's body,
--                   Start the loops; Inclusion, Mined, Collect, CatchUp, Valid, Invariant, Reachable and
--                   Gossip prove.
--   Api             api/rpc.go: requests and their handlers; Reads, Latest and Writes prove.
--   Program         main.go: the genesis balances, the engine, the network of the developer mode, both kinds
--                   of server, and the test generator; Seeds has the list in a flag. Genesis, Engines,
--                   Servers, Generator and Flags prove.
--   Tests           the theorems at concrete inputs
--
-- Integers are natural numbers; where a Go integer of w bits can wrap, `% 2 ^ w` stands in the definition.
-- A loop that may go on for ever takes a number of rounds and returns none when they are used up: `run`
-- of the machine needs one round more than the gas that is left, and `execute_all` and `add_block` one
-- more than the highest gas limit. `load_from` needs one more than the number of blocks in the store.
-- The mining loop takes the number of nonces that are left. `collect`, the loop of a request for blocks,
-- needs one more than the number of headers.
--
-- Parameters: the hash functions, the signature functions of crypto/ecdsa, the gob encodings, the
-- largest slice that can be allocated, the clock of `Seal`, the database of LevelDB, the sockets,
-- JSON, and for a node its transports. No law is assumed of the first ones but where a theorem names
-- it. The codecs of blocks, transactions and messages have the law that what is written without an
-- error can be read, up to the fields that a gob leaves out; the database has the law of a read after
-- a write. The encoding of a point of a curve can be read by crypto/elliptic.
--
-- Left out: locks. The methods run one at a time, as the locks of the chain make those of the chain
-- do; `Add` of the pool holds no lock, and calls of it that overlap are in Network/TxPool/Race alone.
-- Left out as well: logging; listening for connections and for HTTP requests; the clocks, whose ticks
-- are events of the loops of a node; the parsing of the flags, the handler of signals, and the
-- goroutines that main.go starts. A goroutine that the code starts to send something runs at once in
-- the model, and its outcome is dropped. A nil header pointer in a block, and a nil block or
-- transaction in a message, are not modelled.
pub mod Prelude
pub mod Result
pub mod Map
pub mod Types
pub mod Text
pub mod Core
pub mod Consensus
pub mod Network
pub mod Api
pub mod Program
pub mod Tests
