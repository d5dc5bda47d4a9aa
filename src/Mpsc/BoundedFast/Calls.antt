-- ===== src/Mpsc/BoundedFast/Calls.antt =====
-- `send_async` and `recv_async` of the fast bounded MPSC channel do what the queue does.
use comm.Prelude.{
  ◌≤◌, ℕ, ◌<◌, ◌^◌, ◌+◌, ◌≡◌, refl, subst, ◌∙◌, ap, Bool, true, false, not, ◌&&◌, some, List, [],
  ◌∷◌, ◌++◌, ◌>>=◌, arith, length, ◌==◌, ==_iff, ltb, if◌then◌else◌, Bool-cases, if_true, if_false,
  if_some, inl, inr, occurs, err, full, disconnected, empty,
}
use comm.Channel.Calls.{is_empty_err}
use comm.Channel.Peers.{Peers, put, get, take_items, push, ready_get}
use comm.Select.WaitQueue.{Selects}
use comm.Select.WaitQueue.Told.{AllTold}
use comm.Select.Watch.Laws.{notify_wait_queue_lem}
use comm.Slots.{can_read}
use comm.Slots.IsQueue.{IsQueue, write_full, write_room, read_none, read_some}
use comm.Slots.Moves.{fill_lem}
use comm.Slots.Reads.{empty_lem, can_read_lem}
use comm.Mpsc.BoundedFast.{
  Packet, State, notify_wait_queue, notify_receiver, notify_sender, send_at, send_async, recv_at,
  recv_async, ready,
}
use comm.Mpsc.BoundedFast.Models.{Models, has_room}

short : (n c : ℕ) → n ≤ c → (n == c) ≡ false → n < c
short n c h e = ground arith

module _ {ℓ} {T : Type ℓ} (p : Packet T) (have_lock : Bool) (e : p.sleep_mutex ≡ have_lock) where
  no_deadlock : (b : Bool) → not b && b ≡ false
  no_deadlock true = refl
  no_deadlock false = refl

  abbrev pub receiver_woken : Packet T
  receiver_woken = record p {
    recv_condvar = if p.have_sleeping_receiver then p.recv_condvar + 1 else p.recv_condvar;
  }

  abbrev pub sender_woken : Packet T
  sender_woken = record p {
    send_condvar = if ltb 0 p.sleeping_senders then p.send_condvar + 1 else p.send_condvar;
  }

  notify_receiver_lem : notify_receiver p have_lock ≡ some receiver_woken
  unfolding notify_receiver
  notify_receiver_lem = elim (Bool-cases p.have_sleeping_receiver) [
    | inr nobody ↦ rw nobody refl
    | inl someone ↦ rw (someone, e, no_deadlock have_lock) refl
  ]

  notify_sender_lem : notify_sender p have_lock ≡ some sender_woken
  unfolding notify_sender
  notify_sender_lem = elim (Bool-cases (ltb 0 p.sleeping_senders)) [
    | inr nobody ↦ rw nobody refl
    | inl someone ↦ rw (someone, e, no_deadlock have_lock) refl
  ]

module _ {ℓ} {T : Type ℓ} (k : ℕ) (mutex : Bool) where
  pub tell :
      (p q : Packet T) (selects : Selects) (c : Peers T)
      → Models k mutex (q, selects) c
      → q.watch ≡ p.watch
      → (s : State T) × (notify_wait_queue q selects ≡ some s)
        × Models k mutex s c
        × AllTold p.watch.queue.id (λ a. occurs a p.watch.queue.queue) selects s.1
  unfolding notify_wait_queue
  tell p q selects c m same =
      let (watch, selects', done, hint, name, told, valid') =
        notify_wait_queue_lem q.watch selects m.hint m.address m.valid in
      (
        (record q { watch = watch }, selects'),
        rw (done, ◌>>=◌) refl,
        record {
          queue = m.queue;
          senders = m.senders;
          receiver = m.receiver;
          few_senders = m.few_senders;
          one_receiver = m.one_receiver;
          lock = m.lock;
          hint = hint;
          address = rw name m.address;
          valid = valid';
        },
        subst (λ w. AllTold w.queue.id (λ a. occurs a w.queue.queue) selects selects') same told,
      )

module _ {ℓ} {T : Type ℓ} (k : ℕ) (mutex : Bool) (p : Packet T) (selects : Selects) (c : Peers T)
    (m : Models k mutex (p, selects) c) where
  with_slots :
      (q : Packet T) (items : List T)
      → IsQueue k q.slots items
      → q.num_senders ≡ p.num_senders
      → q.receiver_disconnected ≡ p.receiver_disconnected
      → q.sleep_mutex ≡ p.sleep_mutex
      → q.watch ≡ p.watch
      → Models k mutex (q, selects) (record c { items = items })
  with_slots q items queue a b d w = record {
    queue = queue;
    senders = a ∙ m.senders;
    receiver = b ∙ m.receiver;
    few_senders = m.few_senders;
    one_receiver = m.one_receiver;
    lock = d ∙ m.lock;
    hint = rw w m.hint;
    address = rw w m.address;
    valid = m.valid;
  }

  -- Of a packet that stands for a queue, with valid `Select` objects and a caller that says truly whether
  -- it holds the mutex, a send does not fault: it answers as the send of the queue of `2 ^ k` places
  -- does, and the packet then stands for the queue after that. A message that is sent tells every
  -- `Select` object in the wait queue.
  pub send_async_lem :
      (val : T)
      → (s : State T) × (send_async p selects val mutex ≡ some (s, (put (has_room k) c val).1))
        × Models k mutex s (put (has_room k) c val).0
        × ((c.receivers == 0) ≡ false
            → (length c.items == 2 ^ k) ≡ false
            → AllTold p.watch.queue.id (λ a. occurs a p.watch.queue.queue) selects s.1)
  unfolding send_async send_at put
  send_async_lem val = elim (Bool-cases (c.receivers == 0)) [
    | inl gone ↦ rw gone ((p, selects), if_true _ _ (m.receiver ∙ gone), m, λ h. cc)
    | inr here ↦
        let alive = m.receiver ∙ here in
        elim (Bool-cases (length c.items == 2 ^ k)) [
          | inl filled ↦
              let busy =
                write_full k p.slots c.items m.queue ((==_iff (length c.items) (2 ^ k)).0 filled) in
              rw (here, filled)
                (
                  (p, selects),
                  if_false _ _ alive
                      ∙ rw (busy, ◌>>=◌) refl
                      ∙ ap (λ b. some ((p, selects), err (val, if b then disconnected else full)))
                          alive,
                  m,
                  λ h i. cc,
                )
          | inr space ↦
              let lt = short (length c.items) (2 ^ k) m.queue.room space in
              let got = write_room k p.slots c.items m.queue lt in
              let (slots, stored, queue) = fill_lem k p.slots c.items m.queue val lt in
              let q : Packet T = record p { slots = slots } in
              let (s, done, ms, told) =
                tell k mutex p (receiver_woken q mutex m.lock) selects (push c val)
                  (with_slots (receiver_woken q mutex m.lock) (c.items ++ (val ∷ [])) queue refl
                    refl refl refl)
                  refl in
              rw (here, space)
                (
                  s,
                  if_false _ _ alive
                      ∙ rw
                          (
                            got,
                            ◌>>=◌,
                            stored,
                            ◌>>=◌,
                            notify_receiver_lem q mutex m.lock,
                            ◌>>=◌,
                            done,
                            ◌>>=◌,
                          )
                          refl,
                  ms,
                  λ h i. told,
                )
        ]
  ]

  recv_items_lem :
      (items : List T)
      → c.items ≡ items
      → (p' : Packet T) × (recv_async p mutex ≡ some (p', (take_items c items).1))
        × Models k mutex (p', selects) (take_items c items).0
  unfolding recv_async recv_at
  recv_items_lem [] e =
      let nothing = read_none k p.slots [] (subst (IsQueue k p.slots) e m.queue) refl in
      (
        p,
        rw (nothing, ◌>>=◌)
            (ap (λ n. some (p, err (if n == 0 then disconnected else empty))) m.senders),
        m,
      )
  recv_items_lem (x ∷ xs) e =
      let items = subst (IsQueue k p.slots) e m.queue in
      let got = read_some k p.slots (x ∷ xs) items x refl in
      let (slots, out, queue) = empty_lem k p.slots x xs items in
      let q : Packet T = record p { slots = slots } in
      (
        sender_woken q mutex m.lock,
        rw (got, ◌>>=◌, out, ◌>>=◌, notify_sender_lem q mutex m.lock, ◌>>=◌) refl,
        with_slots (sender_woken q mutex m.lock) xs queue refl refl refl refl,
      )

  -- Of a packet that stands for a queue, with a caller that says truly whether it holds the mutex, a
  -- receive does not fault: it answers as the receive of the queue does, and the packet then stands for
  -- the queue after that.
  pub recv_async_lem :
      (p' : Packet T) × (recv_async p mutex ≡ some (p', (get c).1))
      × Models k mutex (p', selects) (get c).0
  unfolding get
  recv_async_lem = recv_items_lem c.items refl

  -- A packet that stands for a queue is ready exactly when a receive would not answer `empty`.
  pub ready_lem : ready p ≡ some (not (is_empty_err (get c).1))
  unfolding ready
  ready_lem =
      ap (λ n. if n == 0 then some true else can_read p.slots) m.senders
      ∙ ap (λ h. if c.senders == 0 then some true else h) (can_read_lem k p.slots c.items m.queue)
      ∙ if_some (c.senders == 0) true (not (length c.items == 0))
      ∙ ap some (ready_get c)
