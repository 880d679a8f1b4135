-- ===== src/Network/Message/MessageType.antt =====
-- network/rpc.go: the constants of `MessageType`, a byte.
use blockz.Prelude.{ℕ}

abbrev pub tx : ℕ
tx = 1

abbrev pub block : ℕ
block = 2

abbrev pub get_blocks : ℕ
get_blocks = 3

abbrev pub status : ℕ
status = 4

abbrev pub get_status : ℕ
get_status = 5

abbrev pub blocks : ℕ
blocks = 6

abbrev pub get_peers : ℕ
get_peers = 7

abbrev pub share_peers : ℕ
share_peers = 8
