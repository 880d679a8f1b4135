-- ===== src/Network.antt =====
-- network/: the transaction pool, the messages and the node.
pub mod SortedMap
pub mod TxPool
pub mod Message
pub mod NetAddr
pub mod LocalTransport
pub mod TcpTransport
pub mod Server
