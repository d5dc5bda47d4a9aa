-- ===== src/Spmc/Unbounded.antt =====
-- src/spmc/unbounded/imp.rs: the unbounded channel with one sender and many receivers, over linked nodes.
-- Each function runs a call to its end with no other thread between. `none` is a fault: an access to an
-- address that holds no node, an `unwrap` of nothing, a thread that locks the mutex that it holds, or a
-- loop that spins for ever.
pub mod Models
pub mod Calls
pub mod Run
mod Tests
use comm.Prelude.{
  ℕ, ◌+◌, Bool, true, false, not, ◌||◌, Option, none, some, List, [], ◌∷◌, ◌>>=◌, if◌then◌else◌,
  ◌==◌, ltb, lookup, Map, remove_key, Result, ok, err, Error, disconnected, empty, add_usize,
  sub_usize,
}
use comm.Channel.Calls.{is_empty_err}
use comm.Channel.Peers.{
  Call, send, recv, clone_sender, drop_sender, clone_receiver, drop_receiver, Reply, sent, received,
  done,
}
use comm.Nodes
use comm.Nodes.{null, Node, Ends, append}
use comm.Select.WaitQueue.{Selects}
use comm.Select.Watch
use comm.Select.Watch.{Watch}
use comm.Simulation.Blocking.{block}
use comm.Simulation.Drain.{drain}

-- The threads that sleep: `num_sleeping`, whether `sleeping_mutex` is taken, and how often
-- `sleeping_condvar` has notified one thread, and all of them.
pub record Sleepers : Type 0 where
  pub num_sleeping : ℕ
  pub mutex : Bool
  pub ones : ℕ
  pub alls : ℕ

unfoldable pub notify_one : Sleepers → Option Sleepers
notify_one s =
    if ltb 0 s.num_sleeping
    then (if s.mutex then none else some (record s { ones = s.ones + 1 }))
    else some s

unfoldable pub notify_all : Sleepers → Option Sleepers
notify_all s =
    if ltb 0 s.num_sleeping
    then (if s.mutex then none else some (record s { alls = s.alls + 1 }))
    else some s

-- What `recv_sync` does before its loop, at a wait, when it wakes up, and at its end.
abbrev pub enter : Sleepers → Sleepers
enter s = record s { num_sleeping = add_usize s.num_sleeping 1; mutex = true }

abbrev pub sleep : Sleepers → Sleepers
sleep s = record s { mutex = false }

abbrev pub wake : Sleepers → Sleepers
wake s = record s { mutex = true }

abbrev pub leave : Sleepers → Sleepers
leave s = record s { num_sleeping = sub_usize s.num_sleeping 1; mutex = false }

-- `ends` is `read_end` and `write_end` with the heap that they point into; `watch` is
-- `wait_queue_used` and `wait_queue`.
pub record Packet {ℓ} (T : Type ℓ) : Type ℓ where
  pub id : ℕ
  pub ends : Ends T
  pub num_queued : ℕ
  pub num_receivers : ℕ
  pub have_sender : Bool
  pub sleepers : Sleepers
  pub watch : Watch

abbrev pub State {ℓ} : Type ℓ → Type ℓ
State T = Packet T × Selects

module _ {ℓ} {T : Type ℓ} where
  abbrev pub set_id : Packet T → ℕ → Packet T
  set_id p id = record p { id = id; watch = Watch.set_id p.watch id }

  abbrev pub add_receiver : Packet T → Packet T
  add_receiver p = record p { num_receivers = add_usize p.num_receivers 1 }

  abbrev pub remove_receiver : Packet T → Packet T
  remove_receiver p = record p { num_receivers = sub_usize p.num_receivers 1 }

  unfoldable pub notify_wait_queue : Packet T → Selects → Option (State T)
  notify_wait_queue p selects = Watch.notify_wait_queue p.watch selects >>= λ (watch, selects').
      some (record p { watch = watch }, selects')

  unfoldable pub remove_sender : Packet T → Selects → Option (State T)
  unfolding notify_all notify_wait_queue
  remove_sender p selects =
      let p' : Packet T = record p { have_sender = false } in
      notify_all p'.sleepers >>= λ sleepers.
      notify_wait_queue (record p' { sleepers = sleepers }) selects

  -- The loop that swaps null into `read_end` until it gets the node. With null there and no other
  -- receive under way, it spins for ever.
  unfoldable pub swap_out : Ends T → Option (Ends T × ℕ)
  swap_out e = if e.read_end == null then none else some (record e { read_end = null }, e.read_end)

  -- The nodes of `recv_async`: the next message, or `none` if there is none.
  unfoldable pub take_locked : Ends T → Option (Ends T × Option T)
  unfolding swap_out
  take_locked e = swap_out e >>= λ (locked, read_end). lookup read_end locked.heap >>= λ node.
      elim node.next [
        | none ↦ some (record locked { read_end = read_end }, none)
        | some next ↦ node.val >>= λ val.
            some
              (record locked { heap = remove_key read_end locked.heap; read_end = next }, some val)
      ]

  unfoldable pub recv_async : Packet T → Option (Packet T × Result T Error)
  unfolding take_locked
  recv_async p =
      if p.num_queued == 0
      then some (p, err (if not p.have_sender then disconnected else empty))
      else (take_locked p.ends >>= λ (ends, got). elim got [
        | none ↦ some (record p { ends = ends }, err empty)
        | some val ↦ some (record p { ends = ends; num_queued = sub_usize p.num_queued 1 }, ok val)
      ])

  unfoldable pub ready : Packet T → Bool
  ready p = not p.have_sender || ltb 0 p.num_queued

  unfoldable pub register : Packet T → ℕ → Packet T
  register p load = record p { watch = Watch.register p.watch load }

  unfoldable pub unregister : Packet T → ℕ → Option (Packet T)
  unregister p id = Watch.unregister p.watch id >>= λ watch. some (record p { watch = watch })

  -- What `drop` does after its loop: the node at `read_end` is read, which drops what it holds.
  unfoldable pub drop : (fuel : ℕ) → Packet T → Option (Packet T × List T × Option T)
  unfolding recv_async
  drop fuel p = drain recv_async fuel p >>= λ (p', vals).
      lookup p'.ends.read_end p'.ends.heap >>= λ node. some (p', vals, node.val)

  abbrev pub on_sleepers : (Sleepers → Sleepers) → State T → State T
  on_sleepers f (p, selects) = (record p { sleepers = f p.sleepers }, selects)

  -- `recv_async` as a try of `recv_sync`.
  unfoldable pub try_recv : State T → Option (State T × Result T Error)
  unfolding recv_async
  try_recv (p, selects) = recv_async p >>= λ (p', out). some ((p', selects), out)

  module _ (alloc : Map (Node T) → ℕ) where
    abbrev pub new : Packet T
    new = record {
      id = 0;
      ends = Nodes.new alloc;
      num_queued = 0;
      num_receivers = 1;
      have_sender = true;
      sleepers = record { num_sleeping = 0; mutex = false; ones = 0; alls = 0 };
      watch = Watch.new;
    }

    unfoldable pub send_val :
        Packet T → Selects → T → Option (State T × Result (Unit {0}) (T × Error))
    unfolding notify_one notify_wait_queue append
    send_val p selects val =
        if p.num_receivers == 0
        then some ((p, selects), err (val, disconnected))
        else (append alloc p.ends val >>= λ ends.
            let q : Packet T = record p { ends = ends; num_queued = add_usize p.num_queued 1 } in
            notify_one q.sleepers >>= λ sleepers.
            notify_wait_queue (record q { sleepers = sleepers }) selects >>= λ s. some (s, ok tt))

    -- A call of the `Producer`, which cannot be cloned, or of a `Consumer`.
    unfoldable pub step : State T → Call T → Option (State T × Reply T)
    unfolding send_val recv_async remove_sender
    step (p, selects) (send val) = send_val p selects val >>= λ (s, out). some (s, sent out)
    step (p, selects) recv = recv_async p >>= λ (p', out). some ((p', selects), received out)
    step (p, selects) clone_receiver = some ((add_receiver p, selects), done)
    step (p, selects) drop_sender = remove_sender p selects >>= λ s. some (s, done)
    step (p, selects) drop_receiver = some ((remove_receiver p, selects), done)
    step s clone_sender = none

    unfoldable pub recv_sync :
        (before : List (Call T))
        → List (List (Call T))
        → State T
        → Option (State T × Option (Result T Error))
    unfolding step try_recv
    recv_sync =
        block step try_recv try_recv is_empty_err (on_sleepers enter) (on_sleepers sleep)
          (on_sleepers wake) (on_sleepers leave)
