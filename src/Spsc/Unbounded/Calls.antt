-- ===== src/Spsc/Unbounded/Calls.antt =====
-- Each call on a packet of the unbounded SPSC channel does what that of the queue does.
use comm.Prelude.{
  if_some, ℕ, ◌≡◌, refl, sym, subst, ◌∙◌, ap, Bool, true, false, not, some, List, [], ◌∷◌, ◌>>=◌,
  arith, length, ◌==◌, if◌then◌else◌, Bool-cases, if_true, if_false, inl, inr, Map, occurs,
}
use comm.Channel.Calls.{is_empty_err}
use comm.Channel.Peers.{Peers, put, get, take_items, push, ready_get}
use comm.Nodes.{Node, IsFresh, has_next}
use comm.Nodes.Messages.{Stores, append-Stores, take_empty, take_first, has_next_lem}
use comm.Select.WaitQueue.{Selects}
use comm.Select.WaitQueue.Told.{AllTold}
use comm.Select.Watch.Laws.{notify_wait_queue_lem}
use comm.Sleeper.{Sleeper, notified, notify_sleeping_free}
use comm.Spsc.Unbounded.{
  Packet, State, notify_sleeping, notify_wait_queue, disconnect_receiver, disconnect_sender,
  recv_async, ready, send_val,
}
use comm.Spsc.Unbounded.Models.{Models}

module _ {ℓ} {T : Type ℓ} (mutex : Bool) (p : Packet T) (selects : Selects) (c : Peers T)
    (m : Models mutex (p, selects) c) where
  recv_items_lem :
      (items : List T)
      → c.items ≡ items
      → (p' : Packet T) × (recv_async p ≡ some (p', (take_items c items).1))
        × Models mutex (p', selects) (take_items c items).0
  unfolding recv_async
  recv_items_lem [] e =
      let nothing = take_empty p.ends (subst (Stores p.ends) e m.stores) in
      (p, rw (nothing, ◌>>=◌, m.sender) refl, m)
  recv_items_lem (x ∷ xs) e =
      let (ends, got, stores) = take_first p.ends x xs (subst (Stores p.ends) e m.stores) in
      (
        record p { ends = ends },
        rw (got, ◌>>=◌) refl,
        record {
          stores = stores;
          sender = m.sender;
          receiver = m.receiver;
          one_sender = m.one_sender;
          one_receiver = m.one_receiver;
          lock = m.lock;
          hint = m.hint;
          address = m.address;
          valid = m.valid;
        },
      )

  -- Of a packet that stands for a queue, `recv_async` does not fault: it answers as the receive of the
  -- queue does, and the packet then stands for the queue after that.
  pub recv_async_lem :
      (p' : Packet T) × (recv_async p ≡ some (p', (get c).1)) × Models mutex (p', selects) (get c).0
  unfolding get
  recv_async_lem = recv_items_lem c.items refl

  -- A packet that stands for a queue is ready exactly when a receive would not answer `empty`.
  pub ready_lem : ready p ≡ some (not (is_empty_err (get c).1))
  unfolding ready
  ready_lem =
      ap (λ b. if b then some true else has_next p.ends) m.sender
      ∙ ap (λ h. if c.senders == 0 then some true else h) (has_next_lem p.ends c.items m.stores)
      ∙ if_some (c.senders == 0) true (not (length c.items == 0))
      ∙ ap some (ready_get c)

module _ {ℓ} {T : Type ℓ} (p : Packet T) (selects : Selects) (c : Peers T)
    (m : Models false (p, selects) c) where
  -- Every `Select` object in the wait queue has been told, and no other.
  abbrev pub Tells : State T → Type 0
  Tells s = AllTold p.watch.queue.id (λ a. occurs a p.watch.queue.queue) selects s.1

  tell :
      (sleeper : Sleeper)
      → sleeper.mutex ≡ false
      → (s : State T) × (notify_wait_queue (record p { sleeper = sleeper }) selects ≡ some s)
        × Models false s c
        × (s.0.sleeper ≡ sleeper)
        × Tells s
  unfolding notify_wait_queue
  tell sleeper lock =
      let (watch, selects', done, hint, name, told, valid') =
        notify_wait_queue_lem p.watch selects m.hint m.address m.valid in
      (
        (record p { sleeper = sleeper; watch = watch }, selects'),
        rw (done, ◌>>=◌) refl,
        record {
          stores = m.stores;
          sender = m.sender;
          receiver = m.receiver;
          one_sender = m.one_sender;
          one_receiver = m.one_receiver;
          lock = lock;
          hint = hint;
          address = rw name m.address;
          valid = valid';
        },
        refl,
        told,
      )

  notify_lem : notify_sleeping p ≡ some (record p { sleeper = notified p.sleeper })
  unfolding notify_sleeping
  notify_lem = rw (notify_sleeping_free p.sleeper m.lock, ◌>>=◌) refl

  -- The wake-up of both the sleeping thread and the `Select` objects.
  woken :
      (s : State T) × (notify_sleeping p >>= (λ q. notify_wait_queue q selects) ≡ some s)
      × Models false s c
      × (s.0.sleeper ≡ notified p.sleeper)
      × Tells s
  woken =
      let (s, done, ms, e, told) = tell (notified p.sleeper) m.lock in
      (s, rw (notify_lem, ◌>>=◌) done, ms, e, told)

  gone_sender :
      Models false (record p { sender_disconnected = true }, selects) (record c { senders = 0 })
  gone_sender = record {
    stores = m.stores;
    sender = refl;
    receiver = m.receiver;
    one_sender = omega arith;
    one_receiver = m.one_receiver;
    lock = m.lock;
    hint = m.hint;
    address = m.address;
    valid = m.valid;
  }

  gone_receiver :
      (sleeper : Sleeper)
      → sleeper.mutex ≡ false
      → Models false
          (record p { receiver_disconnected = true; sleeper = sleeper }, selects)
          (record c { receivers = 0 })
  gone_receiver sleeper lock = record {
    stores = m.stores;
    sender = m.sender;
    receiver = refl;
    one_sender = m.one_sender;
    one_receiver = omega arith;
    lock = lock;
    hint = m.hint;
    address = m.address;
    valid = m.valid;
  }

  -- Of a packet that stands for a queue, with the mutex free, `disconnect_receiver` does not fault; it
  -- wakes a sleeping thread unless the sender has gone.
  pub disconnect_receiver_lem :
      (p' : Packet T) × (disconnect_receiver p ≡ some p')
      × Models false (p', selects) (record c { receivers = 0 })
      × (p'.sleeper ≡ (if c.senders == 0 then p.sleeper else notified p.sleeper))
  unfolding disconnect_receiver notify_sleeping
  disconnect_receiver_lem = elim (Bool-cases (c.senders == 0)) [
    | inl gone ↦
        let e : p.sender_disconnected ≡ true = m.sender ∙ gone in
        (
          record p { receiver_disconnected = true },
          simp e,
          gone_receiver p.sleeper m.lock,
          rw gone refl,
        )
    | inr here ↦
        let e : p.sender_disconnected ≡ false = m.sender ∙ here in
        (
          record p { receiver_disconnected = true; sleeper = notified p.sleeper },
          simp (e, notify_sleeping_free p.sleeper m.lock),
          gone_receiver (notified p.sleeper) m.lock,
          rw here refl,
        )
  ]

-- Of a packet that stands for a queue, with valid `Select` objects and the mutex free,
-- `disconnect_sender` does not fault: every message stays, a sleeping receiver is woken unless the
-- receiver has gone before, and every `Select` object in the wait queue is told.
pub disconnect_sender_lem {ℓ} :
    {T : Type ℓ} (p : Packet T) (selects : Selects) (c : Peers T)
    → Models false (p, selects) c
    → (s : State T) × (disconnect_sender p selects ≡ some s)
      × Models false s (record c { senders = 0 })
      × (s.0.sleeper ≡ (if c.receivers == 0 then p.sleeper else notified p.sleeper))
      × AllTold p.watch.queue.id (λ a. occurs a p.watch.queue.queue) selects s.1
unfolding disconnect_sender
disconnect_sender_lem {T = T} p selects c m =
    let q : Packet T = record p { sender_disconnected = true } in
    let mq = gone_sender p selects c m in
    elim (Bool-cases (c.receivers == 0)) [
      | inl gone ↦
          let e : p.receiver_disconnected ≡ true = m.receiver ∙ gone in
          let (s, done, ms, sl, told) =
            tell q selects (record c { senders = 0 }) mq p.sleeper m.lock in
          (
            s,
            ap (λ x. x >>= (λ r. notify_wait_queue r selects))
                  (if_false (notify_sleeping q) (some q) (ap not e))
                ∙ done,
            ms,
            sl ∙ sym (if_true p.sleeper (notified p.sleeper) gone),
            told,
          )
      | inr here ↦
          let e : p.receiver_disconnected ≡ false = m.receiver ∙ here in
          let (s, done, ms, sl, told) = woken q selects (record c { senders = 0 }) mq in
          (
            s,
            ap (λ x. x >>= (λ r. notify_wait_queue r selects))
                  (if_true (notify_sleeping q) (some q) (ap not e))
                ∙ done,
            ms,
            sl ∙ sym (if_false p.sleeper (notified p.sleeper) here),
            told,
          )
    ]

module _ {ℓ} {T : Type ℓ} (alloc : Map (Node T) → ℕ) (fresh : IsFresh alloc) (p : Packet T)
    (selects : Selects) (val : T) (c : Peers T) (m : Models false (p, selects) c) where
  -- Of a packet that stands for a queue, with valid `Select` objects and the mutex free, and with an
  -- allocator that gives unused non-null addresses, a send does not fault: it answers as the send of the
  -- unbounded queue does, and the packet then stands for the queue after that. A message that is sent
  -- wakes a sleeping receiver and tells every `Select` object in the wait queue.
  pub send_val_lem :
      (s : State T) × (send_val alloc p selects val ≡ some (s, (put (λ items. true) c val).1))
      × Models false s (put (λ items. true) c val).0
      × ((c.receivers == 0) ≡ false
          → (s.0.sleeper ≡ notified p.sleeper)
            × AllTold p.watch.queue.id (λ a. occurs a p.watch.queue.queue) selects s.1)
  unfolding send_val put
  send_val_lem = elim (Bool-cases (c.receivers == 0)) [
    | inl gone ↦
        let e : p.receiver_disconnected ≡ true = m.receiver ∙ gone in
        rw gone ((p, selects), simp e, m, λ h. cc)
    | inr here ↦
        let e : p.receiver_disconnected ≡ false = m.receiver ∙ here in
        let (ends, put_in, stores) = append-Stores alloc fresh p.ends c.items val m.stores in
        let mq : Models false (record p { ends = ends }, selects) (push c val) = record {
          stores = stores;
          sender = m.sender;
          receiver = m.receiver;
          one_sender = m.one_sender;
          one_receiver = m.one_receiver;
          lock = m.lock;
          hint = m.hint;
          address = m.address;
          valid = m.valid;
        } in
        let (s, done, ms, sl, told) = woken (record p { ends = ends }) selects (push c val) mq in
        rw here (s, if_false _ _ e ∙ rw (put_in, ◌>>=◌, done, ◌>>=◌) refl, ms, λ h. (sl, told))
  ]
