-- ===== src/Api/Reads.antt =====
-- api/rpc.go: what the methods that read a node's state answer.
use blockz.Prelude.{
  ℕ, zero, suc, ◌≤◌, [], ◌%◌, ◌^◌, ◌<◌, ◌≡◌, ◌≢◌, refl, List, ◌∷◌, none, some, if◌then◌else◌, ◌==◌,
  ◌=?◌, bytes_eq, length, get_elem?, arith, ltb, bytes_beq_iff, Bool-cases, inl, inr, false,
  get_elem?-some,
}
use blockz.Result.{ok, err, panic, Result-cases, slice_out_of_range, too_high}
use blockz.Text.{codes}
use blockz.Text.Hex.{hex_encode, format_hex}
use blockz.Text.Hex.Laws.{AreBytes, hex_decode-hex_encode, scan_hex-format_hex}
use blockz.Types.{Bytes, address_from_bytes_lem}
use blockz.Core.Data.{Primitives}
use blockz.Core.Storage.{Storage}
use blockz.Core.Consensus.{ConsensusEngine}
use blockz.Core.WorldState.{WorldState, get_balance}
use blockz.Core.Blockchain.{Blockchain, height, get_header}
use blockz.Core.Blockchain.Chain.{IsChain, height-length}
use blockz.Network.Server.{Env, Server}
use blockz.Api.{
  Request, Json, text, header, with_prefix, strip_prefix, requested_height, first_param,
  handle_get_balance, handle_get_block_by_number, handle_call, handle_request,
}

pub strip_prefix_lem : (s : Bytes) → strip_prefix (with_prefix s) ≡ ok s
unfolding strip_prefix
strip_prefix_lem s = ground arith

get_elem?-beyond {ℓ} : {A : Type ℓ} (xs : List A) (i : ℕ) → length xs ≤ i → get_elem? xs i ≡ none
get_elem?-beyond [] i h = refl
get_elem?-beyond (x ∷ xs) zero h = absurd (omega arith)
get_elem?-beyond (x ∷ xs) (suc i) h = get_elem?-beyond xs i (omega arith)

module _ (json : Json) (p : Bytes) (params : List Bytes) where
  -- To a hexadecimal address of 20 bytes `eth_getBalance` answers the balance of that account in
  -- hexadecimal, 0 where there is none; with bytes of any other count it panics.
  pub handle_get_balance_lem :
      (addr : Bytes) (ws : WorldState)
      → AreBytes addr
      → json.unmarshal_string p ≡ ok (with_prefix (hex_encode addr))
      → handle_get_balance json (p ∷ params) ws ≡ (
          if length addr == 20
          then ok (text (with_prefix (format_hex (get_balance ws addr))))
          else panic slice_out_of_range)
  unfolding handle_get_balance first_param
  handle_get_balance_lem addr ws all given =
      let decoded = hex_decode-hex_encode addr all in
      elim (Bool-cases (length addr == 20)) [
        | inl full ↦
            let fine = ((address_from_bytes_lem addr).0 (ground arith)).0 in
            rw (
              handle_get_balance,
              first_param,
              given,
              strip_prefix_lem (hex_encode addr),
              decoded,
              fine,
              full,
            )
        | inr other ↦
            let bad = (address_from_bytes_lem addr).1 (ground arith) in
            rw (
              handle_get_balance,
              first_param,
              given,
              strip_prefix_lem (hex_encode addr),
              decoded,
              bad,
              other,
            )
      ]

  module _ {T C : Type 0} (store : Storage T) (engine : ConsensusEngine C)
      (prims : Primitives) where
    -- On a chain that is in order, `eth_getBlockByNumber` with a 64-bit number in hexadecimal answers the
    -- header at that number modulo 2^32, and an error where the chain has none.
    pub handle_get_block_by_number_lem :
        (bc : Blockchain T C) (n : ℕ)
        → IsChain store engine prims bc
        → n < 2 ^ 64
        → json.unmarshal_string p ≡ ok (with_prefix (format_hex n))
        → handle_get_block_by_number json (p ∷ params) bc
          ≡ elim (get_elem? bc.headers (n % 2 ^ 32)) [
            | none ↦ err too_high
            | some h ↦ ok (header h)
          ]
    unfolding handle_get_block_by_number first_param requested_height get_header
    handle_get_block_by_number_lem bc n chain small given =
        let len = height-length store engine prims bc chain in
        let read = scan_hex-format_hex n small in
        let number : (with_prefix (format_hex n) =? codes "latest") ≡ false = refl in
        let asked : requested_height (with_prefix (format_hex n)) bc ≡ n =
          rw (requested_height, number, read) in
        elim (Bool-cases (ltb (height bc) (n % 2 ^ 32))) [
          | inl beyond ↦
              let absent = get_elem?-beyond bc.headers (n % 2 ^ 32) (ground (arith, len)) in
              rw (handle_get_block_by_number, first_param, given, asked, get_header, beyond, absent)
          | inr there ↦
              let (h, at) = get_elem?-some bc.headers (n % 2 ^ 32) (ground (arith, len)) in
              rw (handle_get_block_by_number, first_param, given, asked, get_header, there, at)
        ]

module _ {T C N Tr : Type 0} (json : Json) (env : Env T C N Tr) where
  -- A request leaves the node as it is, whatever it asks and however it ends, unless its method is
  -- `eth_sendRawTransaction`.
  pub handle_request_reads :
      (now : ℕ) (body : Bytes) (s : Server T C N Tr)
      → ((req : Request)
          → json.decode_request body ≡ ok req
          → req.method ≢ codes "eth_sendRawTransaction")
      → (handle_request json env now body s).0 ≡ s
  unfolding handle_request handle_call
  handle_request_reads now body s other = elim (Result-cases (json.decode_request body)) [
    | inr (inl (e, bad)) ↦ rw (handle_request, bad)
    | inr (inr (q, bad)) ↦ rw (handle_request, bad)
    | inl (req, read) ↦
        rw (handle_request, read)
          (ground
            (arith, other req read, bytes_beq_iff req.method (codes "eth_sendRawTransaction")))
  ]
