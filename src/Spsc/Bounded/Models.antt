-- ===== src/Spsc/Bounded/Models.antt =====
-- How a packet of the bounded SPSC channel stands for a queue of messages.
use comm.Prelude.{
  ℕ, ◌+◌, ◌-◌, ◌%◌, ◌^◌, ◌≤◌, ◌<◌, ◌≡◌, refl, Bool, true, false, not, ◌&&◌, none, some, length,
  ◌==◌, if◌then◌else◌, Bool-cases, inl, inr, sub_usize, occurs,
}
use comm.Channel.{Chan}
use comm.Ring.Positions.{full_test, empty_test}
use comm.Ring.Laws.{Holds}
use comm.Select.Inner.Laws.{IsAddress}
use comm.Select.WaitQueue.{Selects}
use comm.Select.WaitQueue.Told.{AllValid, AllTold}
use comm.Select.Watch.{Watch}
use comm.Select.Watch.Laws.{IsConsistent, notify_wait_queue_lem}
use comm.Spsc.Bounded.{Packet, notify_sleeping, notify_wait_queue}

-- The packet `p`, of capacity `2 ^ k`, stands for the channel `c`.
pub record Models {ℓ} {T : Type ℓ} (k : ℕ) (p : Packet T) (c : Chan T) : Type ℓ where
  pub fits : k ≤ 63
  pub mask : p.cap_mask ≡ 2 ^ k - 1
  pub size : length p.buf ≡ 2 ^ k
  pub range : p.read_pos < 2 ^ 64
  pub write_at : p.write_pos ≡ (p.read_pos + length c.items) % 2 ^ 64
  pub room : length c.items ≤ 2 ^ k
  pub holds : Holds k p.buf p.read_pos c.items
  pub sender : p.sender_disconnected ≡ c.sender_gone
  pub receiver : p.receiver_disconnected ≡ c.receiver_gone
  pub hint : IsConsistent p.watch
  pub address : IsAddress p.watch.queue.id

-- What no call changes.
pub record Keeps {ℓ} {T : Type ℓ} (p p' : Packet T) : Type ℓ where
  pub id : p'.id ≡ p.id
  pub have_sleeping : p'.have_sleeping ≡ p.have_sleeping
  pub sleeping_mutex : p'.sleeping_mutex ≡ p.sleeping_mutex
  pub name : p'.watch.queue.id ≡ p.watch.queue.id

-- The packet after a `notify_sleeping`.
abbrev pub woken {ℓ} : {T : Type ℓ} → Packet T → Packet T
woken p = record p {
  sleeping_condvar = if p.have_sleeping then p.sleeping_condvar + 1 else p.sleeping_condvar;
}

-- A caller that says truly whether it holds the mutex does not lock it twice.
pub notify_sleeping_lem {ℓ} :
    {T : Type ℓ} (p : Packet T) (have_lock : Bool)
    → p.sleeping_mutex ≡ have_lock
    → notify_sleeping p have_lock ≡ some (woken p)
unfolding notify_sleeping
notify_sleeping_lem p have_lock e = elim (Bool-cases p.have_sleeping) [
  | inr awake ↦ rw awake
  | inl asleep ↦ rw (asleep, e) (unlocked have_lock)
]
  where
    unlocked :
        (b : Bool)
        → (if not b && b
            then none
            else some (record p {
              sleeping_condvar = p.sleeping_condvar + 1;
              sleeping_mutex = b;
              have_sleeping = true;
            }))
          ≡ some (record p {
            sleeping_condvar = p.sleeping_condvar + 1;
            sleeping_mutex = b;
            have_sleeping = true;
          })
    unlocked true = refl
    unlocked false = refl

module _ {ℓ} {T : Type ℓ} {k : ℕ} (p : Packet T) {c : Chan T} (m : Models k p c) where
  -- `notify_wait_queue` changes the wait queue only, and tells those in it.
  pub notify_wait_queue_packet :
      (selects : Selects)
      → AllValid selects
      → (watch : Watch) × (selects' : Selects) × (notify_wait_queue p selects
          ≡ some (record p { watch = watch }, selects'))
        × IsConsistent watch
        × (watch.queue.id ≡ p.watch.queue.id)
        × AllTold p.watch.queue.id (λ a. occurs a p.watch.queue.queue) selects selects'
        × AllValid selects'
  unfolding notify_wait_queue
  notify_wait_queue_packet selects valid =
      let (watch, selects', done, hint, name, told, valid') =
        notify_wait_queue_lem p.watch selects m.hint m.address valid in
      (watch, selects', rw done, hint, name, told, valid')

pub Models-watch {ℓ} :
    {T : Type ℓ} {k : ℕ} {p : Packet T} {c : Chan T}
    → Models k p c
    → (watch : Watch) → IsConsistent watch
    → watch.queue.id ≡ p.watch.queue.id
    → Models k (record p { watch = watch }) c
Models-watch m watch hint name = record {
  address = rw name m.address;
  fits = m.fits;
  mask = m.mask;
  size = m.size;
  range = m.range;
  write_at = m.write_at;
  room = m.room;
  holds = m.holds;
  sender = m.sender;
  receiver = m.receiver;
  hint = hint;
}

-- A call has woken those who wait: the thread that sleeps on the condvar, and the `Select` objects.
pub record Woke {ℓ} {T : Type ℓ} (p p' : Packet T) (selects selects' : Selects) : Type ℓ where
  pub sleeper :
      p'.sleeping_condvar ≡ (if p.have_sleeping then p.sleeping_condvar + 1 else p.sleeping_condvar)
  pub told : AllTold p.watch.queue.id (λ a. occurs a p.watch.queue.queue) selects selects'

module _ {ℓ} {T : Type ℓ} {k : ℕ} (p : Packet T) {c : Chan T} (m : Models k p c) where
  -- The test for a full buffer counts the messages.
  pub full_packet : (sub_usize p.write_pos p.read_pos == p.cap_mask + 1) ≡ (length c.items == 2 ^ k)
  full_packet =
      rw (m.mask, m.write_at) (full_test k p.read_pos (length c.items) m.fits m.range m.room)

  pub empty_packet : (p.write_pos == p.read_pos) ≡ (length c.items == 0)
  empty_packet = rw m.write_at (empty_test k p.read_pos (length c.items) m.fits m.range m.room)

pub Keeps-refl {ℓ} : {T : Type ℓ} (p : Packet T) → Keeps p p
Keeps-refl p = record { id = refl; have_sleeping = refl; sleeping_mutex = refl; name = refl }

-- The flags that a blocking call sets are not part of what a packet stands for.
pub Models-sleep {ℓ} :
    {T : Type ℓ} {k : ℕ} {p : Packet T} {c : Chan T} (sleeping locked : Bool)
    → Models k p c
    → Models k (record p { have_sleeping = sleeping; sleeping_mutex = locked }) c
Models-sleep sleeping locked m = record {
  fits = m.fits;
  mask = m.mask;
  size = m.size;
  range = m.range;
  write_at = m.write_at;
  room = m.room;
  holds = m.holds;
  sender = m.sender;
  receiver = m.receiver;
  hint = m.hint;
  address = m.address;
}
