-- ===== src/Api.antt =====
-- api/rpc.go: the JSON-RPC interface of a node. The chain and the broadcaster of an `RPCServer` are
-- those of one node. JSON is a parameter. A handler that panics gives no response, and the HTTP library
-- goes on with the next request. A response's `id` is JSON too, and is null where it is none.
pub mod Reads
pub mod Writes
pub mod Latest
use blockz.Prelude.{
  ℕ, ◌%◌, ◌^◌, ℤ, negsuc, List, [], ◌∷◌, Option, none, some, if◌then◌else◌, leb, ◌=?◌, bytes_eq,
  length, drop,
}
use blockz.Result.{
  Result, Error, ok, err, panic, ◌>>=◌, attempt, slice_out_of_range, missing_parameter,
  method_not_found, parse_error,
}
use blockz.Text.{codes}
use blockz.Text.Hex.{hex_encode, hex_decode, format_hex, scan_hex}
use blockz.Types.{Bytes, address_from_bytes}
use blockz.Core.Data.{Header}
use blockz.Core.WorldState.{WorldState, get_balance}
use blockz.Core.Blockchain.{Blockchain, height, get_header}
use blockz.Network.Server.{Env, Server, process_transaction}

-- `JSONRPCRequest`; a parameter and the `id` are JSON that is not read yet.
pub record Request : Type 0 where
  pub method : Bytes
  pub params : List Bytes
  pub id : Bytes

pub record Json : Type 0 where
  pub decode_request : Bytes → Result Request
  pub unmarshal_string : Bytes → Result Bytes

pub data Value : Type 0 where
  text : Bytes → Value
  header : Header → Value

-- A result, or the code and the message of an error
pub data Reply : Type 0 where
  result : Value → Reply
  fault : ℤ → Error → Reply

-- `JSONRPCResponse`
pub record Response : Type 0 where
  pub reply : Reply
  pub id : Option Bytes

-- `0x%x` of a number and `0x%s` of encoded bytes
abbrev pub with_prefix : Bytes → Bytes
with_prefix s = 48 ∷ 120 ∷ s

unfoldable pub handle_block_number : {T C : Type 0} → Blockchain T C → Bytes
handle_block_number bc = with_prefix (format_hex (height bc))

-- `s[2:]`
unfoldable pub strip_prefix : Bytes → Result Bytes
strip_prefix s = if leb 2 (length s) then ok (drop 2 s) else panic slice_out_of_range

-- The height that `numStr` asks for; what cannot be read leaves it 0.
unfoldable pub requested_height : {T C : Type 0} → Bytes → Blockchain T C → ℕ
requested_height s bc =
    if s =? codes "latest" then height bc else elim (scan_hex s) [ none ↦ 0 | some n ↦ n ]

module _ (json : Json) where
  -- The first parameter, a string
  unfoldable pub first_param : List Bytes → Result Bytes
  first_param [] = err missing_parameter
  first_param (p ∷ params) = json.unmarshal_string p

  unfoldable pub handle_get_balance : List Bytes → WorldState → Result Value
  handle_get_balance params ws = do
    s ← first_param params
    digits ← strip_prefix s
    bytes ← hex_decode digits
    addr ← address_from_bytes bytes
    ok (text (with_prefix (format_hex (get_balance ws addr))))

  unfoldable pub handle_get_block_by_number :
      {T C : Type 0} → List Bytes → Blockchain T C → Result Value
  handle_get_block_by_number params bc = do
    s ← first_param params
    h ← get_header (requested_height s bc % 2 ^ 32) bc
    ok (header h)

  -- The bytes of the first parameter, for `handleSendRawTransaction`
  unfoldable pub raw_param : List Bytes → Result Bytes
  raw_param params = do s ← first_param params; digits ← strip_prefix s; hex_decode digits

module _ {T C N Tr : Type 0} (json : Json) (env : Env T C N Tr) where
  unfoldable pub handle_send_raw_transaction :
      ℕ → List Bytes → Server T C N Tr → Server T C N Tr × Result Value
  handle_send_raw_transaction now params s = attempt s (raw_param json params) λ raw.
      attempt s (env.codec.decode_tx raw) λ t.
        let (s', r) = process_transaction env now t s in
        (s', r >>= λ _. ok (text (with_prefix (hex_encode (env.prims.host.sha256 raw)))))

  -- `writeError` with -32000, or `writeResult`
  abbrev reply_of : Result Value → Result Reply
  reply_of (ok v) = ok (result v)
  reply_of (err e) = ok (fault (negsuc 31999) e)
  reply_of (panic p) = panic p

  -- The `switch` on the method, and what follows it
  unfoldable pub handle_call : ℕ → Request → Server T C N Tr → Server T C N Tr × Result Reply
  handle_call now req s =
      if req.method =? codes "eth_blockNumber"
      then (s, ok (result (text (handle_block_number s.chain))))
      else if req.method =? codes "eth_getBalance"
      then (s, reply_of (handle_get_balance json req.params s.chain.world_state))
      else if req.method =? codes "eth_getBlockByNumber"
      then (s, reply_of (handle_get_block_by_number json req.params s.chain))
      else if req.method =? codes "eth_sendRawTransaction"
      then (let (s', r) = handle_send_raw_transaction now req.params s in (s', reply_of r))
      else if req.method =? codes "net_version"
      then (s, ok (result (text (codes "100"))))
      else if req.method =? codes "eth_chainId"
      then (s, ok (result (text (codes "0x64"))))
      else (s, ok (fault (negsuc 32600) method_not_found))

  -- `handleRequest`, at a time `now`
  unfoldable pub handle_request : ℕ → Bytes → Server T C N Tr → Server T C N Tr × Result Response
  handle_request now body s = elim (json.decode_request body) [
    | err e ↦ (s, ok (record { reply = fault (negsuc 32699) parse_error; id = none }))
    | panic p ↦ (s, panic p)
    | ok req ↦
        let (s', r) = handle_call now req s in
        (s', r >>= λ reply. ok (record { reply = reply; id = some req.id }))
  ]
