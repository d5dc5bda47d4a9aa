-- ===== src/Channel/Calls.antt =====
-- Sequences of calls on a channel, and the calls that block.
use comm.Prelude.{
  ◌≡◌, Bool, true, false, Option, none, some, List, [], ◌∷◌, Result, ok, err, Error, disconnected,
  full, empty, deadlock,
}
use comm.Channel
use comm.Channel.{Chan}

-- The calls that end at once.
pub data Call {ℓ} (T : Type ℓ) : Type ℓ where
  send : T → Call T
  recv : Call T
  drop_sender : Call T
  drop_receiver : Call T

pub data Reply {ℓ} (T : Type ℓ) : Type ℓ where
  sent : Result (Unit {0}) (T × Error) → Reply T
  received : Result T Error → Reply T
  dropped : Reply T

-- The message with which a blocking send tries again: it was given back, and the receiver is there.
unfoldable pub try_again {ℓ} : {T : Type ℓ} → Result (Unit {0}) (T × Error) → Option T
try_again (ok u) = none
try_again (err (val, disconnected)) = none
try_again (err (val, full)) = some val
try_again (err (val, empty)) = some val
try_again (err (val, deadlock)) = some val

-- A blocking receive goes on while the channel is empty.
unfoldable pub is_empty_err {ℓ} : {T : Type ℓ} → Result T Error → Bool
is_empty_err (ok x) = false
is_empty_err (err disconnected) = false
is_empty_err (err full) = false
is_empty_err (err empty) = true
is_empty_err (err deadlock) = false

-- `put` is the send of the channel at hand.
module _ {ℓ} {T : Type ℓ} (put : Chan T → T → Chan T × Result (Unit {0}) (T × Error)) where
  unfoldable pub step : Chan T → Call T → Chan T × Reply T
  step c (send val) = let (c', out) = put c val in (c', sent out)
  step c recv = let (c', out) = Channel.recv c in (c', received out)
  step c drop_sender = (record c { sender_gone = true }, dropped)
  step c drop_receiver = (record c { receiver_gone = true }, dropped)

  unfoldable pub run : Chan T → List (Call T) → Chan T × List (Reply T)
  unfolding step
  run c [] = (c, [])
  run c (call ∷ calls) =
      let (c', reply) = step c call in let (c'', replies) = run c' calls in (c'', reply ∷ replies)

  -- A blocking send tries until it succeeds or the receiver is gone. `waits` are the calls that other
  -- threads make from one try to the next. The result is `none` if the send still blocks at the end.
  unfoldable pub send_sync :
      Chan T → T → (waits : List (List (Call T))) → Chan T × Option (Result (Unit {0}) (T × Error))
  unfolding run
  send_sync c val [] =
      let (c', out) = put c val in (c', elim (try_again out) [ none ↦ some out | some v ↦ none ])
  send_sync c val (calls ∷ waits) =
      let (c', out) = put c val in
      elim (try_again out) [ none ↦ (c', some out) | some v ↦ send_sync (run c' calls).0 v waits ]

  unfoldable pub recv_sync :
      Chan T → (waits : List (List (Call T))) → Chan T × Option (Result T Error)
  unfolding run
  recv_sync c [] =
      let (c', out) = Channel.recv c in
      (c', elim (is_empty_err out) [ false ↦ some out | true ↦ none ])
  recv_sync c (calls ∷ waits) =
      let (c', out) = Channel.recv c in
      elim (is_empty_err out) [ false ↦ (c', some out) | true ↦ recv_sync (run c' calls).0 waits ]

  -- Whichever way a try ends, with the rest of the call.
  pub send_sync_done :
      (c : Chan T) (val : T) (waits : List (List (Call T)))
      → try_again (put c val).1 ≡ none
      → send_sync c val waits ≡ ((put c val).0, some (put c val).1)
  unfolding send_sync
  send_sync_done c val [] e = rw e
  send_sync_done c val (calls ∷ waits) e = rw (e, send_sync)

  pub send_sync_stuck :
      (c : Chan T) (val : T) {v : T}
      → try_again (put c val).1 ≡ some v
      → send_sync c val [] ≡ ((put c val).0, none)
  unfolding send_sync
  send_sync_stuck c val e = rw e

  pub send_sync_again :
      (c : Chan T) (val : T) {v : T} (calls : List (Call T)) (waits : List (List (Call T)))
      → try_again (put c val).1 ≡ some v
      → send_sync c val (calls ∷ waits) ≡ send_sync (run (put c val).0 calls).0 v waits
  unfolding send_sync
  send_sync_again c val calls waits e = rw (e, send_sync)

  pub recv_sync_done :
      (c : Chan T) (waits : List (List (Call T)))
      → is_empty_err (Channel.recv c).1 ≡ false
      → recv_sync c waits ≡ ((Channel.recv c).0, some (Channel.recv c).1)
  unfolding recv_sync
  recv_sync_done c [] e = rw e
  recv_sync_done c (calls ∷ waits) e = rw (e, recv_sync)

  pub recv_sync_stuck :
      (c : Chan T)
      → is_empty_err (Channel.recv c).1 ≡ true
      → recv_sync c [] ≡ ((Channel.recv c).0, none)
  unfolding recv_sync
  recv_sync_stuck c e = rw e

  pub recv_sync_again :
      (c : Chan T) (calls : List (Call T)) (waits : List (List (Call T)))
      → is_empty_err (Channel.recv c).1 ≡ true
      → recv_sync c (calls ∷ waits) ≡ recv_sync (run (Channel.recv c).0 calls).0 waits
  unfolding recv_sync
  recv_sync_again c calls waits e = rw (e, recv_sync)
