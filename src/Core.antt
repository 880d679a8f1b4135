-- ===== src/Core.antt =====
-- core/: accounts, the world state, the machine, transactions, blocks and the chain.
pub mod Account
pub mod Codec
pub mod KeyGob
pub mod StateDb
pub mod WorldState
pub mod Evm
pub mod Data
pub mod Transaction
pub mod Block
pub mod Consensus
pub mod Storage
pub mod Blockchain
