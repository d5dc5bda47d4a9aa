-- ===== src/Mpmc/Bounded/Recv.antt =====
-- `recv_async` of the bounded MPMC channel receives as the queue does.
use comm.Prelude.{
  ℕ, suc, ◌+◌, ◌%◌, ◌^◌, ◌<◌, ◌≡◌, refl, ◌∙◌, ap, Bool, false, some, List, [], ◌∷◌, ◌>>=◌, arith,
  length, ◌==◌,
}
use comm.Ring
use comm.Ring.Laws.{read_lem}
use comm.Mpmc.Bounded.{Packet, add_half, compose_pointer, get_mem, recv_async, recv_at}
use comm.Mpmc.Bounded.Models.{
  Models-condvars, Models, SameCounts, same_counts, get, decompose-compose, empty_half,
}
use comm.Mpmc.Bounded.Calls.{
  read_pos_empty, read_pos_some, set_read_start_lem, sender_woken, notify_sender_lem,
}

wrap_first : (r n : ℕ) → (r + suc n) % 2 ^ 32 ≡ (add_half r 1 + n) % 2 ^ 32
wrap_first r n = omega arith

half_bound : (n : ℕ) → n % 2 ^ 32 < 2 ^ 32
half_bound n = omega arith

some_left : (n : ℕ) → (suc n == 0) ≡ false
some_left n = ground arith

module _ {ℓ} {T : Type ℓ} (k : ℕ) (p : Packet T) (have_lock : Bool)
    (lock : p.sleep_mutex ≡ have_lock) where
  -- The call, and the counts of peers that it leaves alone.
  pub recv_async_lem :
      (items : List T)
      → Models k p items
      → (p' : Packet T) × (recv_async p have_lock ≡ some (p', (get items).1))
        × Models k p' (get items).0
        × (p'.watch ≡ p.watch)
        × SameCounts p p'
  unfolding recv_async recv_at get get_mem
  recv_async_lem [] m = (
    p,
    ap (λ r. recv_at r have_lock)
        (read_pos_empty p m.first ((m.first + 0) % 2 ^ 32) m.ends
          (empty_half k m.first 0 m.fits m.range m.room)),
    m,
    refl,
    same_counts p,
  )
  recv_async_lem (x ∷ xs) m =
      let next = (m.first + suc (length xs)) % 2 ^ 32 in
      let after = add_half m.first 1 in
      let (buf, got, size, holds) =
        read_lem k 32 (omega (arith, m.fits)) p.buf m.first x xs m.size m.room m.holds in
      let read : Ring.read p.buf p.cap_mask m.first ≡ some (x, buf) = rw m.mask got in
      let wrap = wrap_first m.first (length xs) in
      let q : Packet T = record p { buf = buf; write_end_next_read = compose_pointer next after } in
      let r : Packet T = record q { read_start_next_write = compose_pointer after next } in
      let mr : Models k r xs = record {
        first = after;
        fits = m.fits;
        mask = m.mask;
        size = size;
        range = half_bound (m.first + 1);
        starts =
            decompose-compose after next (half_bound (m.first + 1))
              (half_bound (m.first + suc (length xs)))
            ∙ ap (λ n. (after, n)) wrap;
        ends =
            decompose-compose next after (half_bound (m.first + suc (length xs)))
              (half_bound (m.first + 1))
            ∙ ap (λ n. (n, after)) wrap;
        room = omega (arith, m.room);
        holds = holds;
        hint = m.hint;
        address = m.address;
      } in
      (
        sender_woken r have_lock lock,
        ap (λ r. recv_at r have_lock)
              (read_pos_some p m.first next m.ends (
                empty_half k m.first (suc (length xs)) m.fits m.range m.room
                ∙ some_left (length xs)))
            ∙ rw
                (
                  read,
                  ◌>>=◌,
                  set_read_start_lem q m.first next m.starts,
                  ◌>>=◌,
                  notify_sender_lem r have_lock lock,
                  ◌>>=◌,
                )
                refl,
        Models-condvars _ _ mr,
        refl,
        record { awake = refl; senders = refl; receivers = refl; mutex = refl },
      )

  -- Of a packet that stands for a queue, with a caller that says truly whether it holds the mutex,
  -- `recv_async` neither faults nor spins: it answers as the receive of the queue does, the packet then
  -- stands for the queue after that, and the wait queue is as before.
  pub mpmc_recv_refines :
      (items : List T)
      → Models k p items
      → (p' : Packet T) × (recv_async p have_lock ≡ some (p', (get items).1))
        × Models k p' (get items).0
        × (p'.watch ≡ p.watch)
  mpmc_recv_refines items m =
      let (p', done, m', same, kept) = recv_async_lem items m in (p', done, m', same)
