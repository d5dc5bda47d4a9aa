-- ===== src/Spsc/Bounded/Send.antt =====
-- `send_async` of the bounded SPSC channel sends as the queue does.
use comm.Prelude.{
  ℕ, ◌+◌, ◌^◌, ◌<◌, ◌≡◌, refl, ◌∙◌, Bool, true, false, Option, some, List, [], ◌∷◌, arith, length,
  length-append, ◌==◌, Bool-cases, inl, inr, sub_usize, add_usize, ok, err, disconnected, full,
  is_ok, ==_of_false,
}
use comm.Channel
use comm.Channel.{Chan}
use comm.Ring
use comm.Ring.Laws.{write_lem}
use comm.Select.WaitQueue.{Selects}
use comm.Select.WaitQueue.Told.{AllValid}
use comm.Spsc.Bounded.{Packet, commit_send, send_async}
use comm.Spsc.Bounded.Models.{
  Models, Models-watch, Keeps, Keeps-refl, Woke, woken, notify_sleeping_lem,
  notify_wait_queue_packet, full_packet,
}

-- The three ways out of `send_async`.
module _ {ℓ} {T : Type ℓ} (p : Packet T) (selects : Selects) (val : T) (have_lock : Bool) where
  async_gone :
      p.receiver_disconnected ≡ true
      → send_async p selects val have_lock ≡ some (p, selects, err (val, disconnected))
  unfolding send_async
  async_gone e = simp e

  async_full :
      p.receiver_disconnected ≡ false
      → (sub_usize p.write_pos p.read_pos == p.cap_mask + 1) ≡ true
      → send_async p selects val have_lock ≡ some (p, selects, err (val, full))
  unfolding send_async
  async_full e f = simp (e, f)

  async_room :
      {p' : Packet T} {selects' : Selects}
      → p.receiver_disconnected ≡ false
      → (sub_usize p.write_pos p.read_pos == p.cap_mask + 1) ≡ false
      → commit_send p selects val have_lock ≡ some (p', selects')
      → send_async p selects val have_lock ≡ some (p', selects', ok tt)
  unfolding send_async
  async_room e f done = ground (arith, e, f, done)

module _ {ℓ} {T : Type ℓ} {k : ℕ} (p : Packet T) {c : Chan T} (m : Models k p c) where
  -- The stores of a send that finds room.
  stored :
      (val : T)
      → length c.items < 2 ^ k
      → (buf : List (Option T)) × (Ring.write p.buf p.cap_mask p.write_pos val ≡ some buf)
        × Models k
            (woken (record p { buf = buf; write_pos = add_usize p.write_pos 1 }))
            (Channel.push c val)
  stored val room =
      let (buf, done, size, holds) =
        write_lem k 64 (omega (arith, m.fits)) p.buf p.read_pos c.items val m.size room m.holds in
      (
        buf,
        rw (m.mask, m.write_at) done,
        record {
          fits = m.fits;
          mask = m.mask;
          size = size;
          range = m.range;
          write_at = omega (arith, m.write_at, length-append {ℓ} c.items (val ∷ []));
          room = omega (arith, length-append {ℓ} c.items (val ∷ []));
          holds = holds;
          sender = m.sender;
          receiver = m.receiver;
          hint = m.hint;
          address = m.address;
        },
      )

  commit_send_lem :
      (selects : Selects) (val : T) (have_lock : Bool)
      → AllValid selects
      → p.sleeping_mutex ≡ have_lock
      → length c.items < 2 ^ k
      → (p' : Packet T) × (selects' : Selects) × (commit_send p selects val have_lock
          ≡ some (p', selects'))
        × Models k p' (Channel.push c val)
        × Keeps p p'
        × AllValid selects'
        × Woke p p' selects selects'
  unfolding commit_send
  commit_send_lem selects val have_lock valid lock room =
      let (buf, wrote, m') = stored val room in
      let q : Packet T = record p { buf = buf; write_pos = add_usize p.write_pos 1 } in
      let (watch, selects', done, hint, name, told, valid') =
        notify_wait_queue_packet (woken q) m' selects valid in
      (
        record (woken q) { watch = watch },
        selects',
        rw (wrote, notify_sleeping_lem q have_lock lock) done,
        Models-watch m' watch hint name,
        record { id = refl; have_sleeping = refl; sleeping_mutex = refl; name = name },
        valid',
        record { sleeper = refl; told = told },
      )

  -- Of a packet that stands for a queue, with valid `Select` objects and a caller that says truly
  -- whether it holds the mutex, `send_async` does not fault: it answers as the send of the queue of
  -- `2 ^ k` places does, and the packet then stands for the queue after that send. A message that is
  -- sent wakes a sleeping receiver and tells every `Select` object in the wait queue.
  pub send_async_refines :
      (selects : Selects) (val : T) (have_lock : Bool)
      → AllValid selects
      → p.sleeping_mutex ≡ have_lock
      → let (c', out) = Channel.send (2 ^ k) c val in
        (p' : Packet T) × (selects' : Selects) × (send_async p selects val have_lock
          ≡ some (p', selects', out))
        × Models k p' c'
        × Keeps p p'
        × AllValid selects'
        × (is_ok out ≡ true → Woke p p' selects selects')
  send_async_refines selects val have_lock valid lock = elim (Bool-cases c.receiver_gone) [
    | inl gone ↦ rw (Channel.send_gone (2 ^ k) c val gone) (
      p,
      selects,
      async_gone p selects val have_lock (m.receiver ∙ gone),
      m,
      Keeps-refl p,
      valid,
      λ e. cc,
    )
    | inr here ↦ elim (Bool-cases (length c.items == 2 ^ k)) [
      | inl filled ↦ rw (Channel.send_full (2 ^ k) c val here filled) (
        p,
        selects,
        async_full p selects val have_lock (m.receiver ∙ here) (full_packet p m ∙ filled),
        m,
        Keeps-refl p,
        valid,
        λ e. cc,
      )
      | inr space ↦
          let (p', selects', done, m', keeps, valid', woke) =
            commit_send_lem selects val have_lock valid lock
              (omega (arith, m.room, ==_of_false _ _ space)) in
          rw (Channel.send_room (2 ^ k) c val here space) (
            p',
            selects',
            async_room p selects val have_lock (m.receiver ∙ here) (full_packet p m ∙ space) done,
            m',
            keeps,
            valid',
            λ e. woke,
          )
    ]
  ]
