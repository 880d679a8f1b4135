-- ===== src/Tests/Interface.antt =====
-- Requests of clients.
use blockz.Prelude.{
  ◌≡◌, refl, ◌%◌, ◌+◌, ◌^◌, [], ◌∷◌, none, some, if◌then◌else◌, ◌==◌, length, get_elem?, arith,
}
use blockz.Result.{ok, err, panic, slice_out_of_range, too_high}
use blockz.Text.{codes}
use blockz.Text.Hex.{hex_encode, format_hex}
use blockz.Core.WorldState.{get_balance}
use blockz.Network.TxPool.Fifo.{new_tx_pool-IsPool}
use blockz.Api.{
  Json, text, header, with_prefix, handle_get_balance, handle_get_block_by_number,
  handle_send_raw_transaction,
}
use blockz.Api.Reads.{handle_get_balance_lem, handle_get_block_by_number_lem}
use blockz.Api.Latest.{handle_block_number_latest}
use blockz.Api.{handle_block_number}
use blockz.Core.Data.{Header, Transaction}
use blockz.Core.Codec.{sent_tx}
use blockz.Network.SortedMap.Index.{has_hash}
use blockz.Network.TxPool.{pending}
use blockz.Core.Blockchain.{height}
use blockz.Api.Writes.{handle_send_raw_transaction_lem}
use blockz.Tests.{alice, two_accounts}
use blockz.Tests.Nodes.{net_prims, known_tx}
use blockz.Tests.Wires.{test_env}
use blockz.Tests.Network.{program, behind, added_chain, added_chain-IsChain}

-- A string is its bytes, and every request is the same one.
abbrev test_json : Json
test_json = record {
  decode_request = λ body. ok (record { method = codes "eth_chainId"; params = []; id = 49 ∷ [] });
  unmarshal_string = λ b. ok b;
}

handle_get_balance_lem_example :
    handle_get_balance test_json (with_prefix (hex_encode alice) ∷ []) two_accounts ≡ (
      if length alice == 20
      then ok (text (with_prefix (format_hex (get_balance two_accounts alice))))
      else panic slice_out_of_range)
handle_get_balance_lem_example =
    handle_get_balance_lem test_json (with_prefix (hex_encode alice)) [] alice two_accounts
      (omega arith) refl

-- The second header of the chain, under a number that is above 2^32.
handle_get_block_by_number_lem_example :
    handle_get_block_by_number test_json (with_prefix (format_hex (2 ^ 32 + 1)) ∷ []) added_chain
    ≡ elim (get_elem? added_chain.headers ((2 ^ 32 + 1) % 2 ^ 32)) [
      | none ↦ err too_high
      | some h ↦ ok (header h)
    ]
handle_get_block_by_number_lem_example =
    handle_get_block_by_number_lem test_json (with_prefix (format_hex (2 ^ 32 + 1))) []
      test_env.storage test_env.engine net_prims added_chain (2 ^ 32 + 1) added_chain-IsChain
      (omega arith) refl

handle_send_raw_transaction_lem_example :
    let outcome =
      handle_send_raw_transaction test_json test_env 3
        (with_prefix (hex_encode (0 ∷ [])) ∷ [])
        behind in
    (outcome.1 ≡ ok (text (with_prefix (hex_encode (net_prims.host.sha256 (0 ∷ []))))))
    × (tx' : Transaction) × (sent_tx tx' ≡ sent_tx known_tx)
    × (pending outcome.0.mem_pool ≡ tx' ∷ [])
unfolding program hex_encode handle_send_raw_transaction has_hash
handle_send_raw_transaction_lem_example =
    handle_send_raw_transaction_lem test_json test_env 3 (with_prefix (hex_encode (0 ∷ []))) []
      known_tx (0 ∷ []) behind (new_tx_pool-IsPool net_prims 10000 (omega arith)) refl refl
      (omega arith, tt) refl

-- The second header.
handle_block_number_latest_example :
    (top : Header) × (get_elem? added_chain.headers (height added_chain) ≡ some top)
    × (height added_chain + 1 ≡ length added_chain.headers)
    × (handle_get_block_by_number test_json (handle_block_number added_chain ∷ []) added_chain
        ≡ ok (header top))
    × (handle_get_block_by_number test_json (codes "latest" ∷ []) added_chain ≡ ok (header top))
handle_block_number_latest_example =
    handle_block_number_latest test_json test_env.storage test_env.engine net_prims added_chain
      (handle_block_number added_chain) (codes "latest") [] added_chain-IsChain refl refl
