-- ===== src/Spsc/Bounded.antt =====
-- src/spsc/bounded/imp.rs: the bounded channel with one sender and one receiver.
-- Each function runs a call to its end with no other thread between; what the other end does while a
-- blocking call sleeps is an argument. `none` is a fault of the buffer, or a thread that locks the
-- mutex that it holds.
pub mod Lifetime
pub mod Sync
pub mod Models
pub mod Send
pub mod Recv
pub mod Disconnect
pub mod Run
pub mod Blocking
mod Tests
use comm.Prelude.{
  ℕ, zero, suc, ◌+◌, Bool, true, false, not, Option, none, some, List, [], ◌∷◌, ◌>>=◌, ◌==◌, ◌!=◌,
  ◌&&◌, if◌then◌else◌, add_usize, sub_usize, Result, ok, err, Error, disconnected, full, empty,
}
use comm.Ring
use comm.Select.WaitQueue.{Selects}
use comm.Select.Watch
use comm.Select.Watch.{Watch}

-- `sleeping_condvar` counts the calls of `notify_one`; `watch` is `wait_queue_used`, `wait_queue`.
pub record Packet {ℓ} (T : Type ℓ) : Type ℓ where
  pub id : ℕ
  pub buf : List (Option T)
  pub cap_mask : ℕ
  pub read_pos : ℕ
  pub write_pos : ℕ
  pub have_sleeping : Bool
  pub sleeping_mutex : Bool
  pub sleeping_condvar : ℕ
  pub sender_disconnected : Bool
  pub receiver_disconnected : Bool
  pub watch : Watch

-- What a send gives back: nothing, or the message with the reason.
abbrev pub Sent {ℓ} : Type ℓ → Type ℓ
Sent T = Result (Unit {0}) (T × Error)

module _ {ℓ} {T : Type ℓ} where
  unfoldable pub set_id : Packet T → ℕ → Packet T
  set_id p id = record p { id = id; watch = Watch.set_id p.watch id }

  -- Wake a sleeping thread if it exists.
  unfoldable pub notify_sleeping : Packet T → (have_lock : Bool) → Option (Packet T)
  notify_sleeping p have_lock =
      if p.have_sleeping
      then (if not have_lock && p.sleeping_mutex
          then none
          else some (record p { sleeping_condvar = p.sleeping_condvar + 1 }))
      else some p

  unfoldable pub notify_wait_queue : Packet T → Selects → Option (Packet T × Selects)
  notify_wait_queue p selects = Watch.notify_wait_queue p.watch selects >>= λ (watch, selects').
      some (record p { watch = watch }, selects')

  unfoldable pub disconnect_receiver : Packet T → Option (Packet T)
  unfolding notify_sleeping
  disconnect_receiver p =
      let p' : Packet T = record p { receiver_disconnected = true } in
      if not p'.sender_disconnected then notify_sleeping p' false else some p'

  unfoldable pub disconnect_sender : Packet T → Selects → Option (Packet T × Selects)
  unfolding notify_sleeping notify_wait_queue
  disconnect_sender p selects =
      let p' : Packet T = record p { sender_disconnected = true } in
      (if not p'.receiver_disconnected then notify_sleeping p' false else some p') >>= λ q.
      notify_wait_queue q selects

  -- The stores of a successful `send_async`, and the calls that follow them.
  unfoldable pub commit_send : Packet T → Selects → T → Bool → Option (Packet T × Selects)
  unfolding notify_sleeping notify_wait_queue
  commit_send p selects val have_lock = Ring.write p.buf p.cap_mask p.write_pos val >>= λ buf.
      notify_sleeping (record p { buf = buf; write_pos = add_usize p.write_pos 1 }) have_lock
      >>= λ q. notify_wait_queue q selects

  unfoldable pub send_async :
      Packet T → Selects → T → (have_lock : Bool) → Option (Packet T × Selects × Sent T)
  unfolding commit_send
  send_async p selects val have_lock =
      if p.receiver_disconnected
      then some (p, selects, err (val, disconnected))
      else if sub_usize p.write_pos p.read_pos == p.cap_mask + 1
      then some (p, selects, err (val, full))
      else commit_send p selects val have_lock >>= λ (p', selects'). some (p', selects', ok tt)

  unfoldable pub recv_async : Packet T → (have_lock : Bool) → Option (Packet T × Result T Error)
  unfolding notify_sleeping
  recv_async p have_lock =
      if p.write_pos == p.read_pos
      then some (p, err (if p.sender_disconnected then disconnected else empty))
      else Ring.read p.buf p.cap_mask p.read_pos >>= λ (val, buf).
          notify_sleeping (record p { buf = buf; read_pos = add_usize p.read_pos 1 }) have_lock
          >>= λ p'. some (p', ok val)

  unfoldable pub ready : Packet T → Bool
  ready p = if p.sender_disconnected then true else p.write_pos != p.read_pos

  unfoldable pub register : Packet T → ℕ → Packet T
  register p load = record p { watch = Watch.register p.watch load }

  unfoldable pub unregister : Packet T → ℕ → Option (Packet T)
  unregister p id = Watch.unregister p.watch id >>= λ watch. some (record p { watch = watch })
