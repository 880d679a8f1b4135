-- ===== src/Network/Server/Sync.antt =====
-- network/server.go: how nodes catch up with each other: status messages, requests for blocks, and
-- batches of blocks.
pub mod Collect
pub mod CatchUp
use blockz.Prelude.{
  ℕ, zero, suc, ◌+◌, ◌%◌, ◌^◌, Bool, true, false, List, [], ◌∷◌, ◌++◌, Option, none, some,
  if◌then◌else◌, ◌==◌, ltb, leb, ◌||◌,
}
use blockz.Result.{Result, ok, err, panic, attempt}
use blockz.Core.Data.{Block}
use blockz.Core.Blockchain.{Blockchain, height, add_block}
use blockz.Network.Message.{NetAddr, GetBlocksMessage, StatusMessage, get_blocks, blocks, status}
use blockz.Network.Server.{Env, Server, send_payload}

module _ {T C N Tr : Type 0} (env : Env T C N Tr) where
  unfoldable pub process_status_message :
      NetAddr → StatusMessage → Server T C N Tr → Server T C N Tr × Result (Unit {0})
  process_status_message from m s =
      if ltb (height s.chain) m.height
      then send_payload env from
          (get_blocks (record { from = (height s.chain + 1) % 2 ^ 32; to = m.height })) s
      else (s, ok tt)

  unfoldable pub process_get_status_message :
      NetAddr → Server T C N Tr → Server T C N Tr × Result (Unit {0})
  process_get_status_message from s =
      send_payload env from (status (record { id = s.id; version = 1; height = height s.chain })) s

  -- `GetBlock` of the chain
  abbrev pub get_block : ℕ → Blockchain T C → Result Block
  get_block h bc = env.storage.get bc.store h

  -- The loop of `processGetBlocks`, which counts in a `uint32`; `none` means that it would go on after
  -- the given number of rounds.
  unfoldable pub collect : ℕ → ℕ → ℕ → List Block → Blockchain T C → Option (Result (List Block))
  collect zero i to found bc = none
  collect (suc rounds) i to found bc = elim (leb i to) [
    | false ↦ some (ok found)
    | true ↦ elim (get_block i bc) [
      | err e ↦ some (err e)
      | panic p ↦ some (panic p)
      | ok b ↦ collect rounds ((i + 1) % 2 ^ 32) to (found ++ b ∷ []) bc
    ]
  ]

  -- The last block that is sent
  unfoldable pub last_wanted : GetBlocksMessage → Blockchain T C → ℕ
  last_wanted m bc = if (m.to == 0) || ltb (height bc) m.to then height bc else m.to

  unfoldable pub process_get_blocks :
      ℕ
      → NetAddr
      → GetBlocksMessage
      → Server T C N Tr
      → Option (Server T C N Tr × Result (Unit {0}))
  process_get_blocks rounds from m s =
      elim (collect rounds m.from (last_wanted m s.chain) [] s.chain) [
        | none ↦ none
        | some r ↦ some (attempt s r λ found. send_payload env from (blocks found) s)
      ]

  -- The loop of `processBlocks`, left at the first block that fails
  unfoldable pub add_blocks :
      ℕ → List Block → Blockchain T C → Option (Blockchain T C × Result (Unit {0}))
  add_blocks fuel [] bc = some (bc, ok tt)
  add_blocks fuel (b ∷ bs) bc = elim (add_block env.storage env.engine env.prims fuel b bc) [
    | none ↦ none
    | some p ↦ elim p.1 [
      | ok u ↦ add_blocks fuel bs p.0
      | err e ↦ some (p.0, err e)
      | panic q ↦ some (p.0, panic q)
    ]
  ]

  unfoldable pub process_blocks :
      ℕ → List Block → Server T C N Tr → Option (Server T C N Tr × Result (Unit {0}))
  process_blocks fuel bs s = elim (add_blocks fuel bs s.chain) [
    | none ↦ none
    | some p ↦ some (record s { chain = p.0 }, p.1)
  ]
