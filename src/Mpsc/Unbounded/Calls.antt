-- ===== src/Mpsc/Unbounded/Calls.antt =====
-- Each call on a packet of the unbounded MPSC channel does what that of the queue does.
use comm.Prelude.{
  not-not, if_some, sub_usize, add_usize, ◌&&◌, ◌^◌, ◌<◌, ◌+◌, ◌-◌, ℕ, ◌≡◌, refl, subst, ◌∙◌, ap,
  Bool, true, false, not, some, List, [], ◌∷◌, ◌>>=◌, arith, length, ◌==◌, if◌then◌else◌,
  Bool-cases, if_true, if_false, inl, inr, Map, occurs,
}
use comm.Channel.Calls.{is_empty_err}
use comm.Channel.Peers.{Peers, put, get, take_items, push, ready_get}
use comm.Channel.Ends.{add_usize_one, sub_usize_one, less_one}
use comm.Nodes.{Node, IsFresh, has_next}
use comm.Nodes.Messages.{Stores, send-Stores, take_empty, take_first, has_next_lem}
use comm.Select.WaitQueue.{Selects}
use comm.Select.WaitQueue.Told.{Told-same, AllTold}
use comm.Select.Watch.Laws.{notify_wait_queue_lem}
use comm.Sleeper.{Sleeper, notified, notify_sleeping_free}
use comm.Mpsc.Unbounded.{
  add_sender, remove_sender, remove_receiver, Packet, State, notify_sleeping, notify_wait_queue,
  recv_async, ready, send_val,
}
use comm.Mpsc.Unbounded.Models.{Models}

module _ {ℓ} {T : Type ℓ} (mutex : Bool) (p : Packet T) (selects : Selects) (c : Peers T)
    (m : Models mutex (p, selects) c) where
  recv_items_lem :
      (items : List T)
      → c.items ≡ items
      → (p' : Packet T) × (recv_async p ≡ some (p', (take_items c items).1))
        × Models mutex (p', selects) (take_items c items).0
  unfolding recv_async
  recv_items_lem [] e =
      let nothing = take_empty p.ends (subst (Stores p.ends) e m.stores) in
      (p, rw (nothing, ◌>>=◌, m.senders) refl, m)
  recv_items_lem (x ∷ xs) e =
      let (ends, got, stores) = take_first p.ends x xs (subst (Stores p.ends) e m.stores) in
      (
        record p { ends = ends },
        rw (got, ◌>>=◌) refl,
        record {
          stores = stores;
          senders = m.senders;
          receiver = m.receiver;
          few_senders = m.few_senders;
          one_receiver = m.one_receiver;
          lock = m.lock;
          hint = m.hint;
          address = m.address;
          valid = m.valid;
        },
      )

  -- Of a packet that stands for a queue, `recv_async` does not fault: it answers as the receive of the
  -- queue does, and the packet then stands for the queue after that.
  pub recv_async_lem :
      (p' : Packet T) × (recv_async p ≡ some (p', (get c).1)) × Models mutex (p', selects) (get c).0
  unfolding get
  recv_async_lem = recv_items_lem c.items refl

  -- A packet that stands for a queue is ready exactly when a receive would not answer `empty`.
  pub ready_lem : ready p ≡ some (not (is_empty_err (get c).1))
  unfolding ready
  ready_lem =
      ap (λ n. if n == 0 then some true else has_next p.ends) m.senders
      ∙ ap (λ h. if c.senders == 0 then some true else h) (has_next_lem p.ends c.items m.stores)
      ∙ if_some (c.senders == 0) true (not (length c.items == 0))
      ∙ ap some (ready_get c)

module _ {ℓ} {T : Type ℓ} (p : Packet T) (selects : Selects) (c : Peers T)
    (m : Models false (p, selects) c) where
  -- Every `Select` object in the wait queue has been told, and no other.
  abbrev pub Tells : State T → Type 0
  Tells s = AllTold p.watch.queue.id (λ a. occurs a p.watch.queue.queue) selects s.1

  tell :
      (sleeper : Sleeper)
      → sleeper.mutex ≡ false
      → (s : State T) × (notify_wait_queue (record p { sleeper = sleeper }) selects ≡ some s)
        × Models false s c
        × (s.0.sleeper ≡ sleeper)
        × Tells s
  unfolding notify_wait_queue
  tell sleeper lock =
      let (watch, selects', done, hint, name, told, valid') =
        notify_wait_queue_lem p.watch selects m.hint m.address m.valid in
      (
        (record p { sleeper = sleeper; watch = watch }, selects'),
        rw (done, ◌>>=◌) refl,
        record {
          stores = m.stores;
          senders = m.senders;
          receiver = m.receiver;
          few_senders = m.few_senders;
          one_receiver = m.one_receiver;
          lock = lock;
          hint = hint;
          address = rw name m.address;
          valid = valid';
        },
        refl,
        told,
      )

  notify_lem : notify_sleeping p ≡ some (record p { sleeper = notified p.sleeper })
  unfolding notify_sleeping
  notify_lem = rw (notify_sleeping_free p.sleeper m.lock, ◌>>=◌) refl

  -- The wake-up of both the sleeping thread and the `Select` objects.
  woken :
      (s : State T) × (notify_sleeping p >>= (λ q. notify_wait_queue q selects) ≡ some s)
      × Models false s c
      × (s.0.sleeper ≡ notified p.sleeper)
      × Tells s
  woken =
      let (s, done, ms, e, told) = tell (notified p.sleeper) m.lock in
      (s, rw (notify_lem, ◌>>=◌) done, ms, e, told)

  fewer :
      c.senders - 1 < 2 ^ 64
      → sub_usize p.num_senders 1 ≡ c.senders - 1
      → Models false
          (record p { num_senders = sub_usize p.num_senders 1 }, selects)
          (record c { senders = c.senders - 1 })
  fewer few e = record {
    stores = m.stores;
    senders = e;
    receiver = m.receiver;
    few_senders = few;
    one_receiver = m.one_receiver;
    lock = m.lock;
    hint = m.hint;
    address = m.address;
    valid = m.valid;
  }

  pub add_sender_lem :
      c.senders + 1 < 2 ^ 64
      → Models false (add_sender p, selects) (record c { senders = c.senders + 1 })
  add_sender_lem few = record {
    stores = m.stores;
    senders = ap (λ n. add_usize n 1) m.senders ∙ add_usize_one c.senders few;
    receiver = m.receiver;
    few_senders = few;
    one_receiver = m.one_receiver;
    lock = m.lock;
    hint = m.hint;
    address = m.address;
    valid = m.valid;
  }

  pub remove_receiver_lem : Models false (remove_receiver p, selects) (record c { receivers = 0 })
  remove_receiver_lem = record {
    stores = m.stores;
    senders = m.senders;
    receiver = refl;
    few_senders = m.few_senders;
    one_receiver = omega arith;
    lock = m.lock;
    hint = m.hint;
    address = m.address;
    valid = m.valid;
  }

-- Of a packet that stands for a queue, with valid `Select` objects and the mutex free, `remove_sender`
-- does not fault: every message stays, and when the last sender goes, a sleeping receiver is woken and
-- every `Select` object in the wait queue is told. Before that, nobody is.
pub remove_sender_lem {ℓ} :
    {T : Type ℓ} (p : Packet T) (selects : Selects) (c : Peers T)
    → Models false (p, selects) c
    → 0 < c.senders
    → (s : State T) × (remove_sender p selects ≡ some s)
      × Models false s (record c { senders = c.senders - 1 })
      × (s.0.sleeper ≡ (if c.senders == 1 then notified p.sleeper else p.sleeper))
      × AllTold p.watch.queue.id (λ a. (c.senders == 1) && occurs a p.watch.queue.queue) selects s.1
unfolding remove_sender
remove_sender_lem {T = T} p selects c m alive =
    let q : Packet T = record p { num_senders = sub_usize p.num_senders 1 } in
    let mq =
      fewer p selects c m (less_one c.senders m.few_senders)
        (ap (λ n. sub_usize n 1) m.senders ∙ sub_usize_one c.senders alive m.few_senders) in
    elim (Bool-cases (c.senders == 1)) [
      | inl last ↦
          let (s, done, ms, sl, told) = woken q selects (record c { senders = c.senders - 1 }) mq in
          rw last (s, if_true _ _ (ap (λ n. n == 1) m.senders ∙ last) ∙ done, ms, sl, told)
      | inr more ↦ rw more (
        (q, selects),
        if_false _ _ (ap (λ n. n == 1) m.senders ∙ more),
        mq,
        refl,
        λ a. (refl, λ s e. (s, e, Told-same p.watch.queue.id s)),
      )
    ]

module _ {ℓ} {T : Type ℓ} (alloc : Map (Node T) → ℕ) (fresh : IsFresh alloc) (p : Packet T)
    (selects : Selects) (val : T) (c : Peers T) (m : Models false (p, selects) c) where
  -- Of a packet that stands for a queue, with valid `Select` objects and the mutex free, and with an
  -- allocator that gives unused non-null addresses, a send does not fault: it answers as the send of the
  -- unbounded queue does, and the packet then stands for the queue after that. A message that is sent
  -- wakes a sleeping receiver and tells every `Select` object in the wait queue.
  pub send_val_lem :
      (s : State T) × (send_val alloc p selects val ≡ some (s, (put (λ items. true) c val).1))
      × Models false s (put (λ items. true) c val).0
      × ((c.receivers == 0) ≡ false
          → (s.0.sleeper ≡ notified p.sleeper)
            × AllTold p.watch.queue.id (λ a. occurs a p.watch.queue.queue) selects s.1)
  unfolding send_val put
  send_val_lem = elim (Bool-cases (c.receivers == 0)) [
    | inl gone ↦
        let e : not p.have_receiver ≡ true =
          ap not m.receiver ∙ not-not (c.receivers == 0) ∙ gone in
        rw gone ((p, selects), if_true _ _ e, m, λ h. cc)
    | inr here ↦
        let e : not p.have_receiver ≡ false =
          ap not m.receiver ∙ not-not (c.receivers == 0) ∙ here in
        let (ends, put_in, stores) = send-Stores alloc fresh p.ends c.items val m.stores in
        let mq : Models false (record p { ends = ends }, selects) (push c val) = record {
          stores = stores;
          senders = m.senders;
          receiver = m.receiver;
          few_senders = m.few_senders;
          one_receiver = m.one_receiver;
          lock = m.lock;
          hint = m.hint;
          address = m.address;
          valid = m.valid;
        } in
        let (s, done, ms, sl, told) = woken (record p { ends = ends }) selects (push c val) mq in
        rw here (s, if_false _ _ e ∙ rw (put_in, ◌>>=◌, done, ◌>>=◌) refl, ms, λ h. (sl, told))
  ]
