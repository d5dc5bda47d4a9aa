-- ===== src/Spsc/Unbounded.antt =====
-- src/spsc/unbounded/imp.rs: the unbounded channel with one sender and one receiver, over linked nodes.
-- Each function runs a call to its end with no other thread between. `none` is a fault: an access to an
-- address that holds no node, an `unwrap` of nothing, or a thread that locks the mutex that it holds.
pub mod Models
pub mod Calls
pub mod Run
mod Tests
use comm.Prelude.{
  ℕ, Bool, true, false, not, Option, none, some, List, [], ◌∷◌, ◌>>=◌, if◌then◌else◌, lookup, Map,
  Result, ok, err, Error, disconnected, empty, full, deadlock,
}
use comm.Channel.Calls.{is_empty_err}
use comm.Channel.Peers.{
  Call, send, recv, clone_sender, drop_sender, clone_receiver, drop_receiver, Reply, sent, received,
  done,
}
use comm.Nodes
use comm.Nodes.{Node, Ends, take, has_next, append}
use comm.Select.WaitQueue.{Selects}
use comm.Select.Watch
use comm.Select.Watch.{Watch}
use comm.Simulation.Blocking.{block}
use comm.Simulation.Drain.{drain}
use comm.Sleeper
use comm.Sleeper.{Sleeper}

-- `ends` is `read_end` and `write_end` with the heap that they point into; `sleeper` is
-- `have_sleeping`, `sleeping_mutex` and `sleeping_condvar`; `watch` is `wait_queue_used` and
-- `wait_queue`.
pub record Packet {ℓ} (T : Type ℓ) : Type ℓ where
  pub id : ℕ
  pub ends : Ends T
  pub sender_disconnected : Bool
  pub receiver_disconnected : Bool
  pub sleeper : Sleeper
  pub watch : Watch

abbrev pub State {ℓ} : Type ℓ → Type ℓ
State T = Packet T × Selects

module _ {ℓ} {T : Type ℓ} where
  abbrev pub set_id : Packet T → ℕ → Packet T
  set_id p id = record p { id = id; watch = Watch.set_id p.watch id }

  unfoldable pub notify_sleeping : Packet T → Option (Packet T)
  notify_sleeping p = Sleeper.notify_sleeping p.sleeper >>= λ s. some (record p { sleeper = s })

  unfoldable pub notify_wait_queue : Packet T → Selects → Option (State T)
  notify_wait_queue p selects = Watch.notify_wait_queue p.watch selects >>= λ (watch, selects').
      some (record p { watch = watch }, selects')

  unfoldable pub disconnect_receiver : Packet T → Option (Packet T)
  unfolding notify_sleeping
  disconnect_receiver p =
      let p' : Packet T = record p { receiver_disconnected = true } in
      if not p'.sender_disconnected then notify_sleeping p' else some p'

  unfoldable pub disconnect_sender : Packet T → Selects → Option (State T)
  unfolding notify_sleeping notify_wait_queue
  disconnect_sender p selects =
      let p' : Packet T = record p { sender_disconnected = true } in
      (if not p'.receiver_disconnected then notify_sleeping p' else some p') >>= λ q.
      notify_wait_queue q selects

  unfoldable pub recv_async : Packet T → Option (Packet T × Result T Error)
  recv_async p = take p.ends >>= λ (ends, got). elim got [
    | none ↦ some (p, err (if p.sender_disconnected then disconnected else empty))
    | some val ↦ some (record p { ends = ends }, ok val)
  ]

  unfoldable pub ready : Packet T → Option Bool
  ready p = if p.sender_disconnected then some true else has_next p.ends

  unfoldable pub register : Packet T → ℕ → Packet T
  register p load = record p { watch = Watch.register p.watch load }

  unfoldable pub unregister : Packet T → ℕ → Option (Packet T)
  unregister p id = Watch.unregister p.watch id >>= λ watch. some (record p { watch = watch })

  -- What `drop` does after its loop: the node at `read_end` is read, which drops what it holds.
  unfoldable pub drop : (fuel : ℕ) → Packet T → Option (Packet T × List T × Option T)
  unfolding recv_async
  drop fuel p = drain recv_async fuel p >>= λ (p', vals).
      lookup p'.ends.read_end p'.ends.heap >>= λ node. some (p', vals, node.val)

  abbrev pub on_sleeper : (Sleeper → Sleeper) → State T → State T
  on_sleeper f (p, selects) = (record p { sleeper = f p.sleeper }, selects)

  -- `recv_async` as a try of `recv_sync`.
  unfoldable pub try_recv : State T → Option (State T × Result T Error)
  unfolding recv_async
  try_recv (p, selects) = recv_async p >>= λ (p', out). some ((p', selects), out)

  module _ (alloc : Map (Node T) → ℕ) where
    abbrev pub new : Packet T
    new = record {
      id = 0;
      ends = Nodes.new alloc;
      sender_disconnected = false;
      receiver_disconnected = false;
      sleeper = Sleeper.new;
      watch = Watch.new;
    }

    unfoldable pub send_val :
        Packet T → Selects → T → Option (State T × Result (Unit {0}) (T × Error))
    unfolding notify_sleeping notify_wait_queue
    send_val p selects val =
        if p.receiver_disconnected
        then some ((p, selects), err (val, disconnected))
        else (append alloc p.ends val >>= λ ends.
            (notify_sleeping (record p { ends = ends }) >>= λ q. notify_wait_queue q selects)
            >>= λ s. some (s, ok tt))

    -- A call of `Producer` or `Consumer`, which cannot be cloned.
    unfoldable pub step : State T → Call T → Option (State T × Reply T)
    unfolding send_val recv_async disconnect_sender disconnect_receiver
    step (p, selects) (send val) = send_val p selects val >>= λ (s, out). some (s, sent out)
    step (p, selects) recv = recv_async p >>= λ (p', out). some ((p', selects), received out)
    step (p, selects) drop_sender = disconnect_sender p selects >>= λ s. some (s, done)
    step (p, selects) drop_receiver = disconnect_receiver p >>= λ p'. some ((p', selects), done)
    step s clone_sender = none
    step s clone_receiver = none

    unfoldable pub recv_sync :
        (before : List (Call T))
        → List (List (Call T))
        → State T
        → Option (State T × Option (Result T Error))
    unfolding step try_recv
    recv_sync =
        block step try_recv try_recv is_empty_err (on_sleeper Sleeper.enter)
          (on_sleeper Sleeper.sleep) (on_sleeper Sleeper.wake) (on_sleeper Sleeper.leave)
