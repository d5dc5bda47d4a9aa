-- ===== src/Spmc/Unbounded/Calls.antt =====
-- Each call on a packet of the unbounded SPMC channel does what that of the queue does.
use comm.Prelude.{
  not-not, empty, disconnected, err, ℕ, suc, ◌<◌, ◌^◌, ◌+◌, ◌-◌, ◌≡◌, refl, subst, ◌∙◌, ap, Bool,
  true, false, not, ◌||◌, some, List, [], ◌∷◌, ◌++◌, ◌>>=◌, arith, length, ◌==◌, ltb, if◌then◌else◌,
  Bool-cases, if_true, if_false, inl, inr, Map, occurs, add_usize, sub_usize,
}
use comm.Channel.Calls.{is_empty_err}
use comm.Channel.Peers.{Peers, put, get, take_items, push, ready_get}
use comm.Channel.Ends.{add_usize_one, sub_usize_one, less_one}
use comm.Nodes.{null, Node, Ends, IsFresh, take}
use comm.Nodes.Messages.{Stores, append-Stores, take_first, read_end_nonnull}
use comm.Select.WaitQueue.{Selects}
use comm.Select.WaitQueue.Told.{AllTold}
use comm.Select.Watch.Laws.{notify_wait_queue_lem}
use comm.Spmc.Unbounded.{
  Sleepers, notify_one, notify_all, Packet, State, notify_wait_queue, add_receiver, remove_receiver,
  remove_sender, swap_out, take_locked, recv_async, ready, send_val,
}
use comm.Spmc.Unbounded.Models.{Models}

-- Sleepers after a notification of one thread, and of all.
abbrev pub one_notified : Sleepers → Sleepers
one_notified s = record s { ones = if ltb 0 s.num_sleeping then s.ones + 1 else s.ones }

abbrev pub all_notified : Sleepers → Sleepers
all_notified s = record s { alls = if ltb 0 s.num_sleeping then s.alls + 1 else s.alls }

notify_one_free : (s : Sleepers) → s.mutex ≡ false → notify_one s ≡ some (one_notified s)
unfolding notify_one
notify_one_free s e = elim (Bool-cases (ltb 0 s.num_sleeping)) [
  | inr awake ↦ rw awake refl
  | inl asleep ↦ rw (asleep, e) refl
]

notify_all_free : (s : Sleepers) → s.mutex ≡ false → notify_all s ≡ some (all_notified s)
unfolding notify_all
notify_all_free s e = elim (Bool-cases (ltb 0 s.num_sleeping)) [
  | inr awake ↦ rw awake refl
  | inl asleep ↦ rw (asleep, e) refl
]

no_items : (n : ℕ) → n ≡ 0 → (n == 0) ≡ true
no_items n e = ground arith

more_items : (n k : ℕ) → n ≡ suc k → (n == 0) ≡ false
more_items n k e = ground arith

one_less : (n k : ℕ) → n ≡ suc k → suc k < 2 ^ 64 → sub_usize n 1 ≡ k
one_less n k e h = omega arith

one_more : (n k l : ℕ) → n ≡ k → k + 1 < 2 ^ 64 → l ≡ k + 1 → add_usize n 1 ≡ l
one_more n k l e h q = omega arith

still_room : (k l : ℕ) → k + 1 < 2 ^ 64 → l ≡ k + 1 → l < 2 ^ 64
still_room k l h q = omega arith

length-push {ℓ} : {T : Type ℓ} (xs : List T) (x : T) → length (xs ++ (x ∷ [])) ≡ length xs + 1
length-push [] x = refl
length-push (y ∷ xs) x = omega (arith, length-push xs x)

ready_test :
    (b : Bool) (n k : ℕ) → n ≡ k → not (not b) || ltb 0 n ≡ (if b then true else not (k == 0))
ready_test b n k e = ground arith

module _ {ℓ} {T : Type ℓ} where
  -- With no other receive under way, the loop takes the node out at once.
  take_locked_lem : (e : Ends T) → (e.read_end == null) ≡ false → take_locked e ≡ take e
  unfolding take_locked swap_out take
  take_locked_lem e h = rw (h, ◌>>=◌) refl

module _ {ℓ} {T : Type ℓ} (mutex : Bool) (p : Packet T) (selects : Selects) (c : Peers T)
    (m : Models mutex (p, selects) c) where
  recv_items_lem :
      (items : List T)
      → c.items ≡ items
      → (p' : Packet T) × (recv_async p ≡ some (p', (take_items c items).1))
        × Models mutex (p', selects) (take_items c items).0
  unfolding recv_async
  recv_items_lem [] e = (
    p,
    if_true _ _ (no_items p.num_queued (m.queued ∙ ap length e))
        ∙ ap (λ b. some (p, err (if b then disconnected else empty)))
            (ap not m.sender ∙ not-not (c.senders == 0)),
    m,
  )
  recv_items_lem (x ∷ xs) e =
      let stored = subst (Stores p.ends) e m.stores in
      let queued : p.num_queued ≡ suc (length xs) = m.queued ∙ ap length e in
      let (ends, got, stores) = take_first p.ends x xs stored in
      let locked = take_locked_lem p.ends (read_end_nonnull p.ends (x ∷ xs) stored) ∙ got in
      let room : suc (length xs) < 2 ^ 64 = subst (λ l. length l < 2 ^ 64) e m.room in
      (
        record p { ends = ends; num_queued = sub_usize p.num_queued 1 },
        if_false _ _ (more_items p.num_queued (length xs) queued) ∙ rw (locked, ◌>>=◌) refl,
        record {
          stores = stores;
          queued = one_less p.num_queued (length xs) queued room;
          room = omega arith;
          sender = m.sender;
          receivers = m.receivers;
          one_sender = m.one_sender;
          few_receivers = m.few_receivers;
          lock = m.lock;
          hint = m.hint;
          address = m.address;
          valid = m.valid;
        },
      )

  -- Of a packet that stands for a queue, `recv_async` neither faults nor spins: it answers as the
  -- receive of the queue does, and the packet then stands for the queue after that.
  pub recv_async_lem :
      (p' : Packet T) × (recv_async p ≡ some (p', (get c).1)) × Models mutex (p', selects) (get c).0
  unfolding get
  recv_async_lem = recv_items_lem c.items refl

  -- A packet that stands for a queue is ready exactly when a receive would not answer `empty`.
  pub ready_lem : ready p ≡ not (is_empty_err (get c).1)
  unfolding ready
  ready_lem =
      ap (λ b. not b || ltb 0 p.num_queued) m.sender
      ∙ ready_test (c.senders == 0) p.num_queued (length c.items) m.queued
      ∙ ready_get c

module _ {ℓ} {T : Type ℓ} (p : Packet T) (selects : Selects) (c : Peers T)
    (m : Models false (p, selects) c) where
  tell :
      (sleepers : Sleepers)
      → sleepers.mutex ≡ false
      → (s : State T) × (notify_wait_queue (record p { sleepers = sleepers }) selects ≡ some s)
        × Models false s c
        × (s.0.sleepers ≡ sleepers)
        × AllTold p.watch.queue.id (λ a. occurs a p.watch.queue.queue) selects s.1
  unfolding notify_wait_queue
  tell sleepers lock =
      let (watch, selects', done, hint, name, told, valid') =
        notify_wait_queue_lem p.watch selects m.hint m.address m.valid in
      (
        (record p { sleepers = sleepers; watch = watch }, selects'),
        rw (done, ◌>>=◌) refl,
        record {
          stores = m.stores;
          queued = m.queued;
          room = m.room;
          sender = m.sender;
          receivers = m.receivers;
          one_sender = m.one_sender;
          few_receivers = m.few_receivers;
          lock = lock;
          hint = hint;
          address = rw name m.address;
          valid = valid';
        },
        refl,
        told,
      )

  pub add_receiver_lem :
      c.receivers + 1 < 2 ^ 64
      → Models false (add_receiver p, selects) (record c { receivers = c.receivers + 1 })
  add_receiver_lem few = record {
    stores = m.stores;
    queued = m.queued;
    room = m.room;
    sender = m.sender;
    receivers = ap (λ n. add_usize n 1) m.receivers ∙ add_usize_one c.receivers few;
    one_sender = m.one_sender;
    few_receivers = few;
    lock = m.lock;
    hint = m.hint;
    address = m.address;
    valid = m.valid;
  }

  pub remove_receiver_lem :
      0 < c.receivers
      → Models false (remove_receiver p, selects) (record c { receivers = c.receivers - 1 })
  remove_receiver_lem alive = record {
    stores = m.stores;
    queued = m.queued;
    room = m.room;
    sender = m.sender;
    receivers =
        ap (λ n. sub_usize n 1) m.receivers ∙ sub_usize_one c.receivers alive m.few_receivers;
    one_sender = m.one_sender;
    few_receivers = less_one c.receivers m.few_receivers;
    lock = m.lock;
    hint = m.hint;
    address = m.address;
    valid = m.valid;
  }

  gone_sender : Models false (record p { have_sender = false }, selects) (record c { senders = 0 })
  gone_sender = record {
    stores = m.stores;
    queued = m.queued;
    room = m.room;
    sender = refl;
    receivers = m.receivers;
    one_sender = omega arith;
    few_receivers = m.few_receivers;
    lock = m.lock;
    hint = m.hint;
    address = m.address;
    valid = m.valid;
  }

-- Of a packet that stands for a queue, with valid `Select` objects and the mutex free, `remove_sender`
-- does not fault: every message stays, all sleeping receivers are woken, and every `Select` object in
-- the wait queue is told.
pub remove_sender_lem {ℓ} :
    {T : Type ℓ} (p : Packet T) (selects : Selects) (c : Peers T)
    → Models false (p, selects) c
    → (s : State T) × (remove_sender p selects ≡ some s)
      × Models false s (record c { senders = 0 })
      × (s.0.sleepers ≡ all_notified p.sleepers)
      × AllTold p.watch.queue.id (λ a. occurs a p.watch.queue.queue) selects s.1
unfolding remove_sender
remove_sender_lem {T = T} p selects c m =
    let q : Packet T = record p { have_sender = false } in
    let (s, done, ms, sl, told) =
      tell q selects (record c { senders = 0 }) (gone_sender p selects c m)
        (all_notified p.sleepers) m.lock in
    (s, rw (notify_all_free p.sleepers m.lock, ◌>>=◌) done, ms, sl, told)

module _ {ℓ} {T : Type ℓ} (alloc : Map (Node T) → ℕ) (fresh : IsFresh alloc) (p : Packet T)
    (selects : Selects) (val : T) (c : Peers T) (m : Models false (p, selects) c)
    (more : length c.items + 1 < 2 ^ 64) where
  -- Of a packet that stands for a queue, with valid `Select` objects and the mutex free, with an
  -- allocator that gives unused non-null addresses, and with fewer than `2 ^ 64` messages, a send does not
  -- fault: it answers as the send of the unbounded queue does, and the packet then stands for the queue
  -- after that. A message that is sent wakes a sleeping receiver and tells every `Select` object in the
  -- wait queue.
  pub send_val_lem :
      (s : State T) × (send_val alloc p selects val ≡ some (s, (put (λ items. true) c val).1))
      × Models false s (put (λ items. true) c val).0
      × ((c.receivers == 0) ≡ false
          → (s.0.sleepers ≡ one_notified p.sleepers)
            × AllTold p.watch.queue.id (λ a. occurs a p.watch.queue.queue) selects s.1)
  unfolding send_val put
  send_val_lem = elim (Bool-cases (c.receivers == 0)) [
    | inl gone ↦
        rw gone ((p, selects), if_true _ _ (ap (λ n. n == 0) m.receivers ∙ gone), m, λ h. cc)
    | inr here ↦
        let (ends, put_in, stores) = append-Stores alloc fresh p.ends c.items val m.stores in
        let q : Packet T = record p { ends = ends; num_queued = add_usize p.num_queued 1 } in
        let grown = length-push c.items val in
        let mq : Models false (q, selects) (push c val) = record {
          stores = stores;
          queued = one_more p.num_queued (length c.items) _ m.queued more grown;
          room = still_room (length c.items) _ more grown;
          sender = m.sender;
          receivers = m.receivers;
          one_sender = m.one_sender;
          few_receivers = m.few_receivers;
          lock = m.lock;
          hint = m.hint;
          address = m.address;
          valid = m.valid;
        } in
        let (s, done, ms, sl, told) =
          tell q selects (push c val) mq (one_notified p.sleepers) m.lock in
        rw here (
          s,
          if_false _ _ (ap (λ n. n == 0) m.receivers ∙ here)
              ∙ rw (put_in, ◌>>=◌, notify_one_free p.sleepers m.lock, ◌>>=◌, done, ◌>>=◌) refl,
          ms,
          λ h. (sl, told),
        )
  ]
