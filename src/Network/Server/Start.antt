-- ===== src/Network/Server/Start.antt =====
-- network/server.go: the loop of `Start`, those of `ValidatorLoop` and `discoveryLoop` that run beside
-- it, and the calls of the RPC server, as one list in the order in which they are served. An error that
-- a handler returns is logged, what becomes of a client's transaction is answered to the client, and a
-- panic of a loop ends the program.
use blockz.Prelude.{
  ℕ, ◌≡◌, refl, ◌⊎◌, Bool, true, false, List, [], ◌∷◌, Option, none, some, some_inj,
}
use blockz.Result.{Result, Error, ok, err, panic}
use blockz.Network.Message.{Rpc}
use blockz.Core.Data.{Transaction}
use blockz.Network.Server.{Env, Server, process_transaction}
use blockz.Network.Server.Creation.{create_new_block}
use blockz.Network.Server.Dispatch.{receive}
use blockz.Network.Server.Peers.{bootstrap}
use blockz.Network.Server.Reachable.{arrives, creates, searches, submits, Reach, here, next}

-- A message from a transport, a tick of the validator's timer or of that of the search for peers, a
-- transaction of a client (`BroadcastTransaction`), or the end. The numbers bound the machine and the
-- loop over requested blocks, and tell the time.
pub data Event (Tr : Type 0) : Type 0 where
  arrived : ℕ → ℕ → ℕ → Tr → Rpc → Event Tr
  ticked : ℕ → ℕ → Event Tr
  searched : Event Tr
  submitted : ℕ → Transaction → Event Tr
  quit : Event Tr

module _ {T C N Tr : Type 0} (env : Env T C N Tr) where
  -- The handler that an event wakes
  unfoldable pub handle : Event Tr → Server T C N Tr → Option (Server T C N Tr × Result (Unit {0}))
  handle (arrived fuel rounds now tr rpc) s = receive env fuel rounds now tr rpc s
  handle (ticked fuel now) s = create_new_block env fuel now s
  handle searched s = some (bootstrap env s)
  handle (submitted now t) s = some ((process_transaction env now t s).0, ok tt)
  handle quit s = some (s, ok tt)

  unfoldable pub start :
      List (Event Tr) → Server T C N Tr → Option (Server T C N Tr × Result (Unit {0}))
  start [] s = some (s, ok tt)
  start (quit ∷ events) s = some (s, ok tt)
  start (event ∷ events) s = elim (handle event s) [
    | none ↦ none
    | some p ↦ elim p.1 [
      | ok u ↦ start events p.0
      | err e ↦ start events p.0
      | panic x ↦ some (p.0, panic x)
    ]
  ]

  -- What a handler returns when it does not panic
  abbrev Returns : Result (Unit {0}) → Type 0
  Returns r = (r ≡ ok tt) ⊎ ((e : Error) × (r ≡ err e))

  -- Every event is handled, in their order, each by the handler that it wakes on the state that the
  -- handlers before it have left; a handler may return an error.
  pub data Handled : List (Event Tr) → Server T C N Tr → Server T C N Tr → Type 0 where
    finished : {s : Server T C N Tr} → Handled [] s s
    serve :
        (event : Event Tr) {events : List (Event Tr)} {s t u : Server T C N Tr}
        {r : Result (Unit {0})}
        → handle event s ≡ some (t, r)
        → Returns r
        → Handled events t u
        → Handled (event ∷ events) s u

  -- Whether the loop is told to end.
  unfoldable pub has_quit : List (Event Tr) → Bool
  has_quit [] = false
  has_quit (quit ∷ events) = true
  has_quit (event ∷ events) = has_quit events

  abbrev woken :
      List (Event Tr)
      → Server T C N Tr × Result (Unit {0})
      → Option (Server T C N Tr × Result (Unit {0}))
  woken events p = elim p.1 [
    | ok u ↦ start events p.0
    | err e ↦ start events p.0
    | panic x ↦ some (p.0, panic x)
  ]

  pub Reach-trans : {s t u : Server T C N Tr} → Reach env s t → Reach env t u → Reach env s u
  Reach-trans before here = before
  Reach-trans before (next path last) = next (Reach-trans before path) last

  handle-Reach :
      (event : Event Tr) (s : Server T C N Tr) {p : Server T C N Tr × Result (Unit {0})}
      → handle event s ≡ some p
      → Reach env s p.0
  unfolding handle
  handle-Reach (arrived fuel rounds now tr rpc) s {p} given =
      next here (arrives fuel rounds now tr rpc s p.0 p.1 given)
  handle-Reach (ticked fuel now) s {p} given = next here (creates fuel now s p.0 p.1 given)
  handle-Reach searched s {p} given = next here (searches s p.0 p.1 (some_inj given))
  handle-Reach (submitted now t) s {p} given =
      let (s', r) = process_transaction env now t s in
      rw (← some_inj given) (next here (submits now t s s' r refl))
  handle-Reach quit s {p} given = rw (← some_inj given) here

  -- The loop takes a node along its steps.
  Handled-Reach :
      {events : List (Event Tr)} {s s' : Server T C N Tr} → Handled events s s' → Reach env s s'
  Handled-Reach finished = here
  Handled-Reach (serve event {events = events} {s = s} handled returns rest) =
      Reach-trans (handle-Reach event s handled) (Handled-Reach rest)
