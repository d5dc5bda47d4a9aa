-- ===== src/Spmc/BoundedFast.antt =====
-- src/spmc/bounded_fast/imp.rs: the bounded channel with one sender and many receivers, over Slots.
-- Each function runs a call to its end with no other thread between. `none` is a fault: one of the slots, a
-- thread that locks the mutex that it holds, or a panic.
pub mod Models
pub mod Calls
pub mod Ends
pub mod Run
pub mod Start
mod Tests
use comm.Prelude.{
  ℕ, ◌+◌, Bool, true, false, not, ◌&&◌, Option, none, some, List, ◌>>=◌, if◌then◌else◌, ◌==◌, ltb,
  add_usize, sub_usize, Result, ok, err, Error, disconnected, full, empty,
}
use comm.Channel.Calls.{is_empty_err}
use comm.Channel.Peers.{
  is_full_err, Call, send, recv, clone_sender, drop_sender, clone_receiver, drop_receiver, Reply,
  sent, received, done,
}
use comm.Select.WaitQueue.{Selects}
use comm.Select.Watch
use comm.Select.Watch.{Watch}
use comm.Simulation.Blocking.{block}
use comm.Simulation.Drain.{drain}
use comm.Slots.Making
use comm.Slots.{Slots, get_write_pos, fill, get_read_pos, empty_out, can_read}

-- `slots` is `buf`, `cap_mask`, `next_write` and `next_read`; `watch` is `wait_queue_used` and
-- `wait_queue`. The condvars count their notifications, of one thread and of all.
pub record Packet {ℓ} (T : Type ℓ) : Type ℓ where
  pub id : ℕ
  pub slots : Slots T
  pub have_sleeping_sender : Bool
  pub send_condvar : ℕ
  pub sleeping_receivers : ℕ
  pub recv_condvar : ℕ
  pub recv_condvar_all : ℕ
  pub sender_disconnected : Bool
  pub num_receivers : ℕ
  pub sleep_mutex : Bool
  pub watch : Watch

abbrev pub State {ℓ} : Type ℓ → Type ℓ
State T = Packet T × Selects

module _ {ℓ} {T : Type ℓ} where
  -- The packet that `new` makes around its buffer.
  abbrev pub fresh : Slots T → Packet T
  fresh slots = record {
    id = 0;
    slots = slots;
    have_sleeping_sender = false;
    send_condvar = 0;
    sleeping_receivers = 0;
    recv_condvar = 0;
    recv_condvar_all = 0;
    sender_disconnected = false;
    num_receivers = 1;
    sleep_mutex = false;
    watch = Watch.new;
  }

  -- `size_of` is the size of a node.
  unfoldable pub new : (allocate : ℕ → Option (ℕ → ℕ)) → (size_of buf_size : ℕ) → Option (Packet T)
  new allocate size_of buf_size =
      Making.new allocate size_of buf_size >>= λ slots. some (fresh slots)

  abbrev pub set_id : Packet T → ℕ → Packet T
  set_id p id = record p { id = id; watch = Watch.set_id p.watch id }

  abbrev pub add_receiver : Packet T → Packet T
  add_receiver p = record p { num_receivers = add_usize p.num_receivers 1 }

  unfoldable pub notify_wait_queue : Packet T → Selects → Option (State T)
  notify_wait_queue p selects = Watch.notify_wait_queue p.watch selects >>= λ (watch, selects').
      some (record p { watch = watch }, selects')

  unfoldable pub remove_receiver : Packet T → Option (Packet T)
  remove_receiver p =
      let p' : Packet T = record p { num_receivers = sub_usize p.num_receivers 1 } in
      if p.num_receivers == 1
      then (if p'.sleep_mutex
          then none
          else some (record p' {
            send_condvar = if p'.have_sleeping_sender then p'.send_condvar + 1 else p'.send_condvar;
          }))
      else some p'

  unfoldable pub remove_sender : Packet T → Selects → Option (State T)
  unfolding notify_wait_queue
  remove_sender p selects =
      let p' : Packet T = record p { sender_disconnected = true } in
      if p'.sleep_mutex
      then none
      else notify_wait_queue
          (record p' {
            recv_condvar_all =
                if ltb 0 p'.sleeping_receivers
                then p'.recv_condvar_all + 1
                else p'.recv_condvar_all;
          })
          selects

  -- The wake-up of a receiver in `send_async`.
  unfoldable pub notify_receiver : Packet T → (have_lock : Bool) → Option (Packet T)
  notify_receiver p have_lock =
      if ltb 0 p.sleeping_receivers
      then (if not have_lock && p.sleep_mutex
          then none
          else some (record p { recv_condvar = p.recv_condvar + 1 }))
      else some p

  -- The wake-up of the sender in `recv_async`.
  unfoldable pub notify_sender : Packet T → (have_lock : Bool) → Option (Packet T)
  notify_sender p have_lock =
      if p.have_sleeping_sender
      then (if not have_lock && p.sleep_mutex
          then none
          else some (record p { send_condvar = p.send_condvar + 1 }))
      else some p

  -- What `send_async` does with the position that it gets.
  unfoldable pub send_at :
      Packet T
      → Option ℕ
      → Selects
      → T
      → (have_lock : Bool) → Option (State T × Result (Unit {0}) (T × Error))
  unfolding notify_receiver notify_wait_queue
  send_at p none selects val have_lock =
      some ((p, selects), err (val, if p.num_receivers == 0 then disconnected else full))
  send_at p (some write_pos) selects val have_lock = fill p.slots write_pos val >>= λ slots.
      notify_receiver (record p { slots = slots }) have_lock >>= λ q.
      notify_wait_queue q selects >>= λ s. some (s, ok tt)

  unfoldable pub send_async :
      Packet T → Selects → T → (have_lock : Bool) → Option (State T × Result (Unit {0}) (T × Error))
  unfolding send_at
  send_async p selects val have_lock =
      if p.num_receivers == 0
      then some ((p, selects), err (val, disconnected))
      else (get_write_pos p.slots >>= λ (slots, pos).
          send_at (record p { slots = slots }) pos selects val have_lock)

  -- What `recv_async` does with the position that it gets.
  unfoldable pub recv_at :
      Packet T → Option ℕ → (have_lock : Bool) → Option (Packet T × Result T Error)
  unfolding notify_sender
  recv_at p none have_lock = some (p, err (if p.sender_disconnected then disconnected else empty))
  recv_at p (some read_pos) have_lock = empty_out p.slots read_pos >>= λ (slots, val).
      notify_sender (record p { slots = slots }) have_lock >>= λ q. some (q, ok val)

  unfoldable pub recv_async : Packet T → (have_lock : Bool) → Option (Packet T × Result T Error)
  unfolding recv_at
  recv_async p have_lock =
      get_read_pos p.slots >>= λ (slots, pos). recv_at (record p { slots = slots }) pos have_lock

  unfoldable pub ready : Packet T → Option Bool
  ready p = if p.sender_disconnected then some true else can_read p.slots

  unfoldable pub register : Packet T → ℕ → Packet T
  register p load = record p { watch = Watch.register p.watch load }

  unfoldable pub unregister : Packet T → ℕ → Option (Packet T)
  unregister p id = Watch.unregister p.watch id >>= λ watch. some (record p { watch = watch })

  -- The messages that `drop` destroys before it frees the buffer.
  unfoldable pub drop : (fuel : ℕ) → Packet T → Option (Packet T × List T)
  unfolding recv_async
  drop fuel p = drain (λ q. recv_async q false) fuel p

  -- A call of the `Producer`, which cannot be cloned, or of a `Consumer`.
  unfoldable pub step : State T → Call T → Option (State T × Reply T)
  unfolding send_async recv_async remove_sender remove_receiver
  step (p, selects) (send val) = send_async p selects val false >>= λ (s, out). some (s, sent out)
  step (p, selects) recv = recv_async p false >>= λ (p', out). some ((p', selects), received out)
  step (p, selects) clone_receiver = some ((add_receiver p, selects), done)
  step (p, selects) drop_sender = remove_sender p selects >>= λ s. some (s, done)
  step (p, selects) drop_receiver = remove_receiver p >>= λ p'. some ((p', selects), done)
  step s clone_sender = none

  -- `recv_async` and `send_async` as tries of the calls that block.
  unfoldable pub try_recv : (have_lock : Bool) → State T → Option (State T × Result T Error)
  unfolding recv_async
  try_recv have_lock (p, selects) =
      recv_async p have_lock >>= λ (p', out). some ((p', selects), out)

  unfoldable pub try_send :
      T → (have_lock : Bool) → State T → Option (State T × Result (Unit {0}) (T × Error))
  unfolding send_async
  try_send val have_lock (p, selects) = send_async p selects val have_lock

  abbrev pub lock : Bool → State T → State T
  lock held (p, selects) = (record p { sleep_mutex = held }, selects)

  -- What `recv_sync` and `send_sync` do before their loops, and at their ends.
  abbrev pub recv_enter : State T → State T
  recv_enter (p, selects) = (
    record p { sleeping_receivers = add_usize p.sleeping_receivers 1; sleep_mutex = true },
    selects,
  )

  abbrev pub recv_leave : State T → State T
  recv_leave (p, selects) = (
    record p { sleeping_receivers = sub_usize p.sleeping_receivers 1; sleep_mutex = false },
    selects,
  )

  abbrev pub send_enter : State T → State T
  send_enter (p, selects) = (record p { have_sleeping_sender = true; sleep_mutex = true }, selects)

  abbrev pub send_leave : State T → State T
  send_leave (p, selects) =
      (record p { have_sleeping_sender = false; sleep_mutex = false }, selects)

  unfoldable pub recv_sync :
      (before : List (Call T))
      → List (List (Call T))
      → State T
      → Option (State T × Option (Result T Error))
  unfolding step try_recv
  recv_sync =
      block step (try_recv false) (try_recv true) is_empty_err recv_enter (lock false) (lock true)
        recv_leave

  unfoldable pub send_sync :
      T
      → (before : List (Call T)) → List (List (Call T))
      → State T
      → Option (State T × Option (Result (Unit {0}) (T × Error)))
  unfolding step try_send
  send_sync val =
      block step (try_send val false) (try_send val true) is_full_err send_enter (lock false)
        (lock true) send_leave
