-- ===== src/Mpmc/Bounded.antt =====
-- src/mpmc/bounded/imp.rs: the bounded channel that any number of peers share. Two positions of 32 bits
-- stand in one word, so that one compare-and-swap sees both.
-- Each function runs a call to its end with no other thread between, so every compare-and-swap succeeds.
-- `none` is a fault: one of the buffer, a thread that locks the mutex that it holds, or a loop that spins
-- for ever.
pub mod Models
pub mod Calls
pub mod Send
pub mod Recv
pub mod Drop
pub mod Sync
pub mod Start
mod Tests
use comm.Prelude.{
  ◌||◌, replicate, zero, suc, [], ◌∷◌, ◌-◌, ℕ, ◌+◌, ◌*◌, ◌/◌, ◌%◌, ◌^◌, Bool, true, false, not,
  ◌&&◌, Option, none, some, List, ◌>>=◌, if◌then◌else◌, ◌==◌, ◌!=◌, ltb, bit_or, usize_mod,
  add_usize, sub_usize, Result, ok, err, Error, full, empty,
}
use comm.Prelude.Powers.{checked_next_power_of_two, saturating_size}
use comm.Ring
use comm.Select.WaitQueue.{Selects}
use comm.Select.Watch
use comm.Select.Watch.{Watch}

-- `a + b` and `a - b` on `HalfPointer`, with 32 bits on a 64-bit target.
abbrev pub add_half : ℕ → ℕ → ℕ
add_half a b = (a + b) % 2 ^ 32

abbrev pub sub_half : ℕ → ℕ → ℕ
sub_half a b = (a + 2 ^ 32 - b) % 2 ^ 32

unfoldable pub decompose_pointer : ℕ → ℕ × ℕ
decompose_pointer val = (val % 2 ^ 32, val / 2 ^ 32 % 2 ^ 32)

unfoldable pub compose_pointer : (lower higher : ℕ) → ℕ
compose_pointer lower higher = bit_or lower (higher * 2 ^ 32 % usize_mod)

-- The condvars count their notifications; `sleep_mutex` says whether it is taken.
pub record Packet {ℓ} (T : Type ℓ) : Type ℓ where
  pub id : ℕ
  pub buf : List (Option T)
  pub cap_mask : ℕ
  pub read_start_next_write : ℕ
  pub write_end_next_read : ℕ
  pub sleeping_senders : ℕ
  pub send_condvar : ℕ
  pub sleeping_receivers : ℕ
  pub recv_condvar : ℕ
  pub sleep_mutex : Bool
  pub peers_awake : ℕ
  pub watch : Watch

abbrev pub State {ℓ} : Type ℓ → Type ℓ
State T = Packet T × Selects

module _ {ℓ} {T : Type ℓ} where
  -- The packet that `new` makes; the allocator gives a buffer of empty places.
  abbrev pub fresh : (cap : ℕ) → Packet T
  fresh cap = record {
    id = 0;
    buf = replicate cap none;
    cap_mask = (cap - 1) % 2 ^ 32;
    read_start_next_write = 0;
    write_end_next_read = 0;
    sleeping_senders = 0;
    send_condvar = 0;
    sleeping_receivers = 0;
    recv_condvar = 0;
    sleep_mutex = false;
    peers_awake = 1;
    watch = Watch.new;
  }

  -- `allocate` says whether there is memory of that size; `size_of` is the size of a message. `none` is a
  -- panic, or the end of the program by `oom`.
  unfoldable pub new : (allocate : ℕ → Bool) → (size_of buf_size : ℕ) → Option (Packet T)
  new allocate size_of buf_size =
      if ltb (2 ^ 31) buf_size
      then none
      else (checked_next_power_of_two buf_size >>= λ cap.
          if ltb (2 ^ 63 - 1) (saturating_size cap size_of)
          then none
          else if size_of == 0 || allocate (saturating_size cap size_of)
          then some (fresh cap)
          else none)

  abbrev pub set_id : Packet T → ℕ → Packet T
  set_id p id = record p { id = id; watch = Watch.set_id p.watch id }

  abbrev pub add_peer : Packet T → Packet T
  add_peer p = record p { peers_awake = add_usize p.peers_awake 1 }

  unfoldable pub notify_wait_queue : Packet T → Selects → Option (State T)
  notify_wait_queue p selects = Watch.notify_wait_queue p.watch selects >>= λ (watch, selects').
      some (record p { watch = watch }, selects')

  unfoldable pub remove_peer : Packet T → Selects → Option (State T)
  unfolding notify_wait_queue
  remove_peer p selects =
      let p' : Packet T = record p { peers_awake = sub_usize p.peers_awake 1 } in
      if p.peers_awake == 1
      then (if p'.sleep_mutex
          then none
          else notify_wait_queue
              (if ltb 0 p'.sleeping_receivers
                then record p' { recv_condvar = p'.recv_condvar + 1 }
                else record p' { send_condvar = p'.send_condvar + 1 })
              selects)
      else some (p', selects)

  unfoldable pub get_write_pos : Packet T → Packet T × Option ℕ
  get_write_pos p =
      let (read_start, next_write) = decompose_pointer p.read_start_next_write in
      if sub_half next_write read_start == add_half p.cap_mask 1 then (p, none) else (
        record p { read_start_next_write = compose_pointer read_start (add_half next_write 1) },
        some next_write,
      )

  unfoldable pub set_write_end : Packet T → (pos : ℕ) → Option (Packet T)
  set_write_end p pos =
      let (write_end, next_read) = decompose_pointer p.write_end_next_read in
      if write_end != pos
      then none
      else some (record p { write_end_next_read = compose_pointer (add_half pos 1) next_read })

  unfoldable pub get_read_pos : Packet T → Packet T × Option ℕ
  get_read_pos p =
      let (write_end, next_read) = decompose_pointer p.write_end_next_read in
      if write_end == next_read then (p, none) else (
        record p { write_end_next_read = compose_pointer write_end (add_half next_read 1) },
        some next_read,
      )

  unfoldable pub set_read_start : Packet T → (pos : ℕ) → Option (Packet T)
  set_read_start p pos =
      let (read_start, next_write) = decompose_pointer p.read_start_next_write in
      if read_start != pos
      then none
      else some (record p { read_start_next_write = compose_pointer (add_half pos 1) next_write })

  unfoldable pub set_mem : Packet T → (pos : ℕ) → T → Option (Packet T)
  set_mem p pos val = Ring.write p.buf p.cap_mask pos val >>= λ buf. some (record p { buf = buf })

  unfoldable pub get_mem : Packet T → (pos : ℕ) → Option (T × Packet T)
  get_mem p pos =
      Ring.read p.buf p.cap_mask pos >>= λ (val, buf). some (val, record p { buf = buf })

  -- The wake-up of a receiver in `send_async`.
  unfoldable pub notify_receiver : Packet T → (have_lock : Bool) → Option (Packet T)
  notify_receiver p have_lock =
      if ltb 0 p.sleeping_receivers
      then (if not have_lock && p.sleep_mutex
          then none
          else some (record p { recv_condvar = p.recv_condvar + 1 }))
      else some p

  -- The wake-up of a sender in `recv_async`.
  unfoldable pub notify_sender : Packet T → (have_lock : Bool) → Option (Packet T)
  notify_sender p have_lock =
      if ltb 0 p.sleeping_senders
      then (if not have_lock && p.sleep_mutex
          then none
          else some (record p { send_condvar = p.send_condvar + 1 }))
      else some p

  -- What `send_async` does with the position that it gets.
  unfoldable pub send_at :
      Packet T × Option ℕ
      → Selects
      → T
      → (have_lock : Bool) → Option (State T × Result (Unit {0}) (T × Error))
  unfolding set_mem set_write_end notify_receiver notify_wait_queue
  send_at (p, none) selects val have_lock = some ((p, selects), err (val, full))
  send_at (p, some write_pos) selects val have_lock = set_mem p write_pos val >>= λ q.
      set_write_end q write_pos >>= λ w.
      notify_receiver w have_lock >>= λ n. notify_wait_queue n selects >>= λ s. some (s, ok tt)

  unfoldable pub send_async :
      Packet T → Selects → T → (have_lock : Bool) → Option (State T × Result (Unit {0}) (T × Error))
  unfolding get_write_pos send_at
  send_async p selects val have_lock = send_at (get_write_pos p) selects val have_lock

  -- What `recv_async` does with the position that it gets.
  unfoldable pub recv_at :
      Packet T × Option ℕ → (have_lock : Bool) → Option (Packet T × Result T Error)
  unfolding get_mem set_read_start notify_sender
  recv_at (p, none) have_lock = some (p, err empty)
  recv_at (p, some read_pos) have_lock = get_mem p read_pos >>= λ (val, q).
      set_read_start q read_pos >>= λ r. notify_sender r have_lock >>= λ p'. some (p', ok val)

  unfoldable pub recv_async : Packet T → (have_lock : Bool) → Option (Packet T × Result T Error)
  unfolding get_read_pos recv_at
  recv_async p have_lock = recv_at (get_read_pos p) have_lock

  -- `for i in (0..n)`, from some `i` on, with `n` rounds to go.
  unfoldable pub drop_loop : (read_start i n : ℕ) → Packet T → Option (Packet T × List T)
  unfolding get_mem
  drop_loop read_start i zero p = some (p, [])
  drop_loop read_start i (suc n) p = get_mem p (add_half read_start i) >>= λ (val, q).
      drop_loop read_start (i + 1) n q >>= λ (p', vals). some (p', val ∷ vals)

  -- The messages that `drop` destroys.
  unfoldable pub drop : Packet T → Option (Packet T × List T)
  unfolding drop_loop
  drop p =
      let (write_end, read_start) = decompose_pointer p.write_end_next_read in
      drop_loop read_start 0 (sub_half write_end read_start) p

  unfoldable pub ready : Packet T → Bool
  ready p =
      if p.peers_awake == 0
      then true
      else (let (write_end, next_read) = decompose_pointer p.write_end_next_read in
          write_end != next_read)

  unfoldable pub register : Packet T → ℕ → Packet T
  register p load = record p { watch = Watch.register p.watch load }

  unfoldable pub unregister : Packet T → ℕ → Option (Packet T)
  unregister p id = Watch.unregister p.watch id >>= λ watch. some (record p { watch = watch })
