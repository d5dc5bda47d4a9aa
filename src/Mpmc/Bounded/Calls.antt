-- ===== src/Mpmc/Bounded/Calls.antt =====
-- The steps of the calls of the bounded MPMC channel.
use comm.Prelude.{
  ℕ, ◌+◌, ◌≡◌, refl, Bool, true, false, not, ◌&&◌, none, some, List, ◌>>=◌, arith, ◌==◌, ◌!=◌, ltb,
  if◌then◌else◌, Bool-cases, inl, inr, occurs,
}
use comm.Select.WaitQueue.{Selects}
use comm.Select.WaitQueue.Told.{AllValid, AllTold}
use comm.Select.Watch.Laws.{notify_wait_queue_lem}
use comm.Mpmc.Bounded.{
  Packet, State, notify_wait_queue, add_half, sub_half, decompose_pointer, compose_pointer,
  get_write_pos, set_write_end, get_read_pos, set_read_start, notify_receiver, notify_sender,
}
use comm.Mpmc.Bounded.Models.{Models, SameCounts}

differ_self : (n : ℕ) → (n != n) ≡ false
differ_self n = ground arith

module _ {ℓ} {T : Type ℓ} (p : Packet T) (a b : ℕ) where
  pub write_pos_full :
      decompose_pointer p.read_start_next_write ≡ (a, b)
      → (sub_half b a == add_half p.cap_mask 1) ≡ true
      → get_write_pos p ≡ (p, none)
  unfolding get_write_pos
  write_pos_full e f = rw (e, f) refl

  pub write_pos_room :
      decompose_pointer p.read_start_next_write ≡ (a, b)
      → (sub_half b a == add_half p.cap_mask 1) ≡ false
      → get_write_pos p
        ≡ (record p { read_start_next_write = compose_pointer a (add_half b 1) }, some b)
  unfolding get_write_pos
  write_pos_room e f = rw (e, f) refl

  pub read_pos_empty :
      decompose_pointer p.write_end_next_read ≡ (b, a)
      → (b == a) ≡ true
      → get_read_pos p ≡ (p, none)
  unfolding get_read_pos
  read_pos_empty e f = rw (e, f) refl

  pub read_pos_some :
      decompose_pointer p.write_end_next_read ≡ (b, a)
      → (b == a) ≡ false
      → get_read_pos p
        ≡ (record p { write_end_next_read = compose_pointer b (add_half a 1) }, some a)
  unfolding get_read_pos
  read_pos_some e f = rw (e, f) refl

  pub set_write_end_lem :
      decompose_pointer p.write_end_next_read ≡ (b, a)
      → set_write_end p b
        ≡ some (record p { write_end_next_read = compose_pointer (add_half b 1) a })
  unfolding set_write_end
  set_write_end_lem e = rw (e, differ_self b) refl

  pub set_read_start_lem :
      decompose_pointer p.read_start_next_write ≡ (a, b)
      → set_read_start p a
        ≡ some (record p { read_start_next_write = compose_pointer (add_half a 1) b })
  unfolding set_read_start
  set_read_start_lem e = rw (e, differ_self a) refl

module _ {ℓ} {T : Type ℓ} (p : Packet T) (have_lock : Bool) (e : p.sleep_mutex ≡ have_lock) where
  no_deadlock : (b : Bool) → not b && b ≡ false
  no_deadlock true = refl
  no_deadlock false = refl

  abbrev pub receiver_woken : Packet T
  receiver_woken = record p {
    recv_condvar = if ltb 0 p.sleeping_receivers then p.recv_condvar + 1 else p.recv_condvar;
  }

  abbrev pub sender_woken : Packet T
  sender_woken = record p {
    send_condvar = if ltb 0 p.sleeping_senders then p.send_condvar + 1 else p.send_condvar;
  }

  pub notify_receiver_lem : notify_receiver p have_lock ≡ some receiver_woken
  unfolding notify_receiver
  notify_receiver_lem = elim (Bool-cases (ltb 0 p.sleeping_receivers)) [
    | inr nobody ↦ rw nobody refl
    | inl someone ↦ rw (someone, e, no_deadlock have_lock) refl
  ]

  pub notify_sender_lem : notify_sender p have_lock ≡ some sender_woken
  unfolding notify_sender
  notify_sender_lem = elim (Bool-cases (ltb 0 p.sleeping_senders)) [
    | inr nobody ↦ rw nobody refl
    | inl someone ↦ rw (someone, e, no_deadlock have_lock) refl
  ]

-- `notify_wait_queue` leaves the queue of messages and the counts of peers alone.
pub wait_queue_told {ℓ} :
    {T : Type ℓ} (k : ℕ) (q : Packet T) (selects : Selects) (items : List T)
    → Models k q items
    → AllValid selects
    → (s : State T) × (notify_wait_queue q selects ≡ some s)
      × Models k s.0 items
      × AllValid s.1
      × AllTold q.watch.queue.id (λ a. occurs a q.watch.queue.queue) selects s.1
      × SameCounts q s.0
unfolding notify_wait_queue
wait_queue_told k q selects items n valid =
    let (watch, selects', done, hint, name, told, valid') =
      notify_wait_queue_lem q.watch selects n.hint n.address valid in
    (
      (record q { watch = watch }, selects'),
      rw (done, ◌>>=◌) refl,
      record {
        first = n.first;
        fits = n.fits;
        mask = n.mask;
        size = n.size;
        range = n.range;
        starts = n.starts;
        ends = n.ends;
        room = n.room;
        holds = n.holds;
        hint = hint;
        address = rw name n.address;
      },
      valid',
      told,
      record { awake = refl; senders = refl; receivers = refl; mutex = refl },
    )
