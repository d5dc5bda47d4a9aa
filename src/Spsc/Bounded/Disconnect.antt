-- ===== src/Spsc/Bounded/Disconnect.antt =====
-- What the drop of either end of a bounded SPSC channel does.
use comm.Prelude.{ℕ, ◌+◌, ◌≡◌, refl, Bool, true, false, not, ◌&&◌, some, if◌then◌else◌, occurs}
use comm.Channel.{Chan}
use comm.Select.WaitQueue.{Selects}
use comm.Select.WaitQueue.Told.{AllValid, AllTold}
use comm.Spsc.Bounded.{Packet, notify_sleeping, disconnect_receiver, disconnect_sender}
use comm.Spsc.Bounded.Models.{
  Models, Models-watch, Keeps, notify_sleeping_lem, notify_wait_queue_packet,
}

-- The packet after a `notify_sleeping` that is left out if the other end has gone.
abbrev nudged {ℓ} : {T : Type ℓ} → Packet T → (gone : Bool) → Packet T
nudged p gone = record p {
  sleeping_condvar =
      if not gone && p.have_sleeping then p.sleeping_condvar + 1 else p.sleeping_condvar;
}

nudge {ℓ} :
    {T : Type ℓ} (p : Packet T) (gone : Bool)
    → p.sleeping_mutex ≡ false
    → (if not gone then notify_sleeping p false else some p) ≡ some (nudged p gone)
nudge p true lock = refl
nudge p false lock = notify_sleeping_lem p false lock

module _ {ℓ} {T : Type ℓ} {k : ℕ} (p : Packet T) {c : Chan T} (m : Models k p c) where
  sender_gone :
      Models k
        (nudged (record p { sender_disconnected = true }) p.receiver_disconnected)
        (record c { sender_gone = true })
  sender_gone = record {
    fits = m.fits;
    mask = m.mask;
    size = m.size;
    range = m.range;
    write_at = m.write_at;
    room = m.room;
    holds = m.holds;
    sender = refl;
    receiver = m.receiver;
    hint = m.hint;
    address = m.address;
  }

  receiver_gone :
      Models k
        (nudged (record p { receiver_disconnected = true }) p.sender_disconnected)
        (record c { receiver_gone = true })
  receiver_gone = record {
    fits = m.fits;
    mask = m.mask;
    size = m.size;
    range = m.range;
    write_at = m.write_at;
    room = m.room;
    holds = m.holds;
    sender = m.sender;
    receiver = refl;
    hint = m.hint;
    address = m.address;
  }

  -- Of a packet that stands for a queue, with valid `Select` objects and the mutex free,
  -- `disconnect_sender` does not fault: every message stays, a sleeping receiver is woken unless the
  -- receiver has gone before, and every `Select` object in the wait queue is told.
  pub disconnect_sender_refines :
      (selects : Selects)
      → AllValid selects
      → p.sleeping_mutex ≡ false
      → (p' : Packet T) × (selects' : Selects) × (disconnect_sender p selects ≡ some (p', selects'))
        × Models k p' (record c { sender_gone = true })
        × Keeps p p'
        × AllTold p.watch.queue.id (λ a. occurs a p.watch.queue.queue) selects selects'
        × AllValid selects'
        × (p'.sleeping_condvar ≡ (
            if not c.receiver_gone && p.have_sleeping
            then p.sleeping_condvar + 1
            else p.sleeping_condvar))
  unfolding disconnect_sender
  disconnect_sender_refines selects valid lock =
      let gone : Packet T = record p { sender_disconnected = true } in
      let q : Packet T = nudged gone p.receiver_disconnected in
      let (watch, selects', done, hint, name, told, valid') =
        notify_wait_queue_packet q sender_gone selects valid in
      (
        record q { watch = watch },
        selects',
        rw (nudge gone p.receiver_disconnected lock) done,
        Models-watch sender_gone watch hint name,
        record { id = refl; have_sleeping = refl; sleeping_mutex = refl; name = name },
        told,
        valid',
        rw m.receiver,
      )

  -- Of a packet that stands for a queue, with the mutex free, `disconnect_receiver` does not fault: a
  -- sleeping sender is woken unless the sender has gone before.
  pub disconnect_receiver_refines :
      p.sleeping_mutex ≡ false
      → (p' : Packet T) × (disconnect_receiver p ≡ some p')
        × Models k p' (record c { receiver_gone = true })
        × Keeps p p'
        × (p'.watch ≡ p.watch)
        × (p'.sleeping_condvar ≡ (
            if not c.sender_gone && p.have_sleeping
            then p.sleeping_condvar + 1
            else p.sleeping_condvar))
  unfolding disconnect_receiver
  disconnect_receiver_refines lock = (
    nudged (record p { receiver_disconnected = true }) p.sender_disconnected,
    nudge (record p { receiver_disconnected = true }) p.sender_disconnected lock,
    receiver_gone,
    record { id = refl; have_sleeping = refl; sleeping_mutex = refl; name = refl },
    refl,
    rw m.sender,
  )
