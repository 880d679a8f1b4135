-- ===== src/Api/Latest.antt =====
-- api/rpc.go: the ways in which a client asks for the newest header.
use blockz.Prelude.{
  ◌≡◌, ◌∙◌, ◌<◌, ◌+◌, ◌%◌, ◌^◌, List, ◌∷◌, some, length, get_elem?, get_elem?-some, arith, false,
  ltb, bytes_eq,
}
use blockz.Result.{ok}
use blockz.Text.{codes}
use blockz.Types.{Bytes}
use blockz.Core.Data.{Header, Primitives}
use blockz.Core.Storage.{Storage}
use blockz.Core.Consensus.{ConsensusEngine}
use blockz.Core.Blockchain.{Blockchain, height, get_header}
use blockz.Core.Blockchain.Chain.{IsChain, height-length}
use blockz.Api.{
  Json, header, handle_block_number, handle_get_block_by_number, first_param, requested_height,
}
use blockz.Api.Reads.{handle_get_block_by_number_lem}

module _ {T C : Type 0} (json : Json) (store : Storage T) (engine : ConsensusEngine C)
    (prims : Primitives) where
  -- On a chain that is in order, `eth_getBlockByNumber` answers the top header to the number that
  -- `eth_blockNumber` has answered, and to the word "latest".
  pub handle_block_number_latest :
      (bc : Blockchain T C) (p q : Bytes) (params : List Bytes)
      → IsChain store engine prims bc
      → json.unmarshal_string p ≡ ok (handle_block_number bc)
      → json.unmarshal_string q ≡ ok (codes "latest")
      → (top : Header) × (get_elem? bc.headers (height bc) ≡ some top)
        × (height bc + 1 ≡ length bc.headers)
        × (handle_get_block_by_number json (p ∷ params) bc ≡ ok (header top))
        × (handle_get_block_by_number json (q ∷ params) bc ≡ ok (header top))
  unfolding handle_block_number handle_get_block_by_number first_param requested_height get_header
  handle_block_number_latest bc p q params chain asked latest =
      let len = height-length store engine prims bc chain in
      let (top, at) = get_elem?-some bc.headers (height bc) (omega (arith, len)) in
      let small : height bc < 2 ^ 32 = omega (arith, len, chain.short) in
      let whole : height bc % 2 ^ 32 ≡ height bc = omega (arith, small) in
      let here : ltb (height bc) (height bc) ≡ false = ground arith in
      let numbered =
        handle_get_block_by_number_lem json p params store engine prims bc (height bc) chain
          (omega (arith, small)) asked in
      (
        top,
        at,
        omega (arith, len, chain.started),
        numbered ∙ rw (whole, at),
        rw (
          handle_get_block_by_number, first_param, latest, requested_height, whole, get_header,
          here, at,
        ),
      )
