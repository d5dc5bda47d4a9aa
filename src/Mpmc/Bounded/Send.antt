-- ===== src/Mpmc/Bounded/Send.antt =====
-- `send_async` of the bounded MPMC channel sends as the queue does.
use comm.Prelude.{
  Result, Error, ℕ, ◌+◌, ◌%◌, ◌^◌, ◌≤◌, ◌<◌, ◌≡◌, refl, sym, ◌∙◌, ap, Bool, false, Option, some,
  List, [], ◌∷◌, ◌++◌, ◌>>=◌, arith, length, length-append, ◌==◌, Bool-cases, inl, inr, occurs,
}
use comm.Ring
use comm.Ring.Laws.{Holds, write_lem}
use comm.Select.WaitQueue.{Selects}
use comm.Select.WaitQueue.Told.{AllValid, AllTold}
use comm.Mpmc.Bounded.{
  Packet, State, add_half, sub_half, compose_pointer, set_mem, send_async, send_at,
}
use comm.Mpmc.Bounded.Models.{
  Models-condvars, Models, SameCounts, same_counts, put, decompose-compose, full_half,
}
use comm.Mpmc.Bounded.Calls.{
  write_pos_full, write_pos_room, set_write_end_lem, receiver_woken, notify_receiver_lem,
  wait_queue_told,
}

wrap_next : (r n : ℕ) → add_half ((r + n) % 2 ^ 32) 1 ≡ (r + (n + 1)) % 2 ^ 32
wrap_next r n = omega arith

half_bound : (n : ℕ) → n % 2 ^ 32 < 2 ^ 32
half_bound n = omega arith

below : (n c : ℕ) → n ≤ c → (n == c) ≡ false → n < c
below n c h e = ground arith

module _ {ℓ} {T : Type ℓ} (k : ℕ) (p : Packet T) (selects : Selects) (val : T) (have_lock : Bool)
    (items : List T) (m : Models k p items) (lock : p.sleep_mutex ≡ have_lock)
    (valid : AllValid selects) where
  abbrev next : ℕ
  next = (m.first + length items) % 2 ^ 32

  abbrev at_pos : Packet T × Option ℕ → Option (State T × Result (Unit {0}) (T × Error))
  at_pos r = send_at r selects val have_lock

  test : (sub_half next m.first == add_half p.cap_mask 1) ≡ (length items == 2 ^ k)
  test =
      ap (λ c. sub_half next m.first == add_half c 1) m.mask
      ∙ full_half k m.first (length items) m.fits m.range m.room

  -- The packet after the message has been written and both words have been set.
  sent_into :
      (buf : List (Option T))
      → length buf ≡ 2 ^ k
      → Holds k buf m.first (items ++ (val ∷ []))
      → length items < 2 ^ k
      → Models k
          (record p {
            buf = buf;
            read_start_next_write = compose_pointer m.first (add_half next 1);
            write_end_next_read = compose_pointer (add_half next 1) m.first;
          })
          (items ++ (val ∷ []))
  sent_into buf size holds room =
      let grown : length (items ++ (val ∷ [])) ≡ length items + 1 =
        length-append items (val ∷ []) in
      let at : add_half next 1 ≡ (m.first + length (items ++ (val ∷ []))) % 2 ^ 32 =
        wrap_next m.first (length items) ∙ ap (λ n. (m.first + n) % 2 ^ 32) (sym grown) in
      record {
        first = m.first;
        fits = m.fits;
        mask = m.mask;
        size = size;
        range = m.range;
        starts =
            decompose-compose m.first (add_half next 1) m.range (half_bound (next + 1))
            ∙ ap (λ n. (m.first, n)) at;
        ends =
            decompose-compose (add_half next 1) m.first (half_bound (next + 1)) m.range
            ∙ ap (λ n. (n, m.first)) at;
        room = omega (arith, grown);
        holds = holds;
        hint = m.hint;
        address = m.address;
      }

  -- The call, and the counts of peers that it leaves alone.
  pub send_async_lem :
      (s : State T) × (send_async p selects val have_lock ≡ some (s, (put (2 ^ k) items val).1))
      × Models k s.0 (put (2 ^ k) items val).0
      × AllValid s.1
      × ((length items == 2 ^ k) ≡ false
          → AllTold p.watch.queue.id (λ a. occurs a p.watch.queue.queue) selects s.1)
      × SameCounts p s.0
  unfolding send_async send_at put set_mem
  send_async_lem = elim (Bool-cases (length items == 2 ^ k)) [
    | inl filled ↦ rw filled (
      (p, selects),
      ap at_pos (write_pos_full p m.first next m.starts (test ∙ filled)),
      m,
      valid,
      (λ h. cc),
      same_counts p,
    )
    | inr space ↦
        let room = below (length items) (2 ^ k) m.room space in
        let (buf, wrote, size, holds) =
          write_lem k 32 (omega (arith, m.fits)) p.buf m.first items val m.size room m.holds in
        let stored : Ring.write p.buf p.cap_mask next val ≡ some buf = rw m.mask wrote in
        let q : Packet T = record p {
          buf = buf;
          read_start_next_write = compose_pointer m.first (add_half next 1);
        } in
        let w : Packet T = record q {
          write_end_next_read = compose_pointer (add_half next 1) m.first;
        } in
        let (s, done, ms, valid', told, kept) =
          wait_queue_told k (receiver_woken w have_lock lock) selects (items ++ (val ∷ []))
            (Models-condvars _ _ (sent_into buf size holds room)) valid in
        rw space (
          s,
          ap at_pos (write_pos_room p m.first next m.starts (test ∙ space))
              ∙ rw
                  (
                    stored,
                    ◌>>=◌,
                    set_write_end_lem q m.first next m.ends,
                    ◌>>=◌,
                    notify_receiver_lem w have_lock lock,
                    ◌>>=◌,
                    done,
                    ◌>>=◌,
                  )
                  refl,
          ms,
          valid',
          (λ h. told),
          record {
            awake = kept.awake;
            senders = kept.senders;
            receivers = kept.receivers;
            mutex = kept.mutex;
          },
        )
  ]

  -- Of a packet that stands for a queue, with valid `Select` objects and a caller that says truly
  -- whether it holds the mutex, `send_async` neither faults nor spins: it answers as the send of the
  -- queue of `2 ^ k` places does, and the packet then stands for the queue after that send. A message
  -- that is sent tells every `Select` object in the wait queue.
  pub mpmc_send_refines :
      (s : State T) × (send_async p selects val have_lock ≡ some (s, (put (2 ^ k) items val).1))
      × Models k s.0 (put (2 ^ k) items val).0
      × AllValid s.1
      × ((length items == 2 ^ k) ≡ false
          → AllTold p.watch.queue.id (λ a. occurs a p.watch.queue.queue) selects s.1)
  mpmc_send_refines =
      let (s, done, ms, valid', told, kept) = send_async_lem in (s, done, ms, valid', told)
