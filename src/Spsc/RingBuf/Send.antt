-- ===== src/Spsc/RingBuf/Send.antt =====
-- The overwriting send takes effect at once, whichever receives come between its steps.
use comm.Prelude.{
  ℕ, ◌^◌, ◌<◌, ◌≡◌, refl, sym, ◌∙◌, ap, true, false, Option, some, List, [], ◌∷◌, ◌>>=◌, arith,
  length, length-append, if◌then◌else◌, Bool-cases, inl, inr, add_usize, Result, ok, err, Error,
  disconnected,
}
use comm.Channel
use comm.Channel.{Chan}
use comm.Ring
use comm.Ring.Laws.{write_lem}
use comm.Select.WaitQueue.{Selects}
use comm.Select.WaitQueue.Told.{AllValid}
use comm.Spsc.Bounded.{Packet, notify_sleeping, notify_wait_queue}
use comm.Spsc.Bounded.Models.{
  Models, Models-watch, woken, notify_sleeping_lem, notify_wait_queue_packet,
}
use comm.Spsc.RingBuf.{recvs, make_room, send}
use comm.Spsc.RingBuf.Room.{chan_recvs, overwrite, recvs_lem, make_room_lem}

-- What the send of the queue answers: the receives that come first, and then the overwriting send.
unfoldable pub chan_send {ℓ} :
    {T : Type ℓ}
    → ℕ
    → Chan T
    → T
    → (between : ℕ) → Chan T × List (Result T Error) × Result (Option T) (T × Error)
unfolding chan_recvs
chan_send cap c val between =
    if c.receiver_gone
    then (c, [], err (val, disconnected))
    else let (d, outs) = chan_recvs between c in
      let (d', old) = overwrite cap d d.items val in (d', outs, ok old)

module _ {ℓ} {T : Type ℓ} {k : ℕ} (p : Packet T) {c : Chan T} (m : Models k p c) where
  -- The stores of a send for which there is room.
  stored :
      (val : T)
      → length c.items < 2 ^ k
      → (buf : List (Option T)) × (Ring.write p.buf p.cap_mask p.write_pos val ≡ some buf)
        × Models k
            (woken (record p { buf = buf; write_pos = add_usize p.write_pos 1 }))
            (Channel.push c val)
  stored val room =
      let (buf, done, size, holds) =
        write_lem k 64 (omega (arith, m.fits)) p.buf p.read_pos c.items val m.size room m.holds in
      (
        buf,
        rw (m.mask, m.write_at) done,
        record {
          fits = m.fits;
          mask = m.mask;
          size = size;
          range = m.range;
          write_at = omega (arith, m.write_at, length-append {ℓ} c.items (val ∷ []));
          room = omega (arith, length-append {ℓ} c.items (val ∷ []));
          holds = holds;
          sender = m.sender;
          receiver = m.receiver;
          hint = m.hint;
          address = m.address;
        },
      )

chan_send_gone {ℓ} :
    {T : Type ℓ} (cap : ℕ) (c : Chan T) (val : T) (between : ℕ)
    → c.receiver_gone ≡ true
    → chan_send cap c val between ≡ (c, [], err (val, disconnected))
unfolding chan_send
chan_send_gone cap c val between e = simp e

chan_send_here {ℓ} :
    {T : Type ℓ} (cap : ℕ) (c d' : Chan T) (val : T) (between : ℕ) (old : Option T)
    → c.receiver_gone ≡ false
    → overwrite cap (chan_recvs between c).0 (chan_recvs between c).0.items val ≡ (d', old)
    → chan_send cap c val between ≡ (d', (chan_recvs between c).1, ok old)
unfolding chan_send
chan_send_here cap c d' val between old e over = simp (e, over)

module _ {ℓ} {T : Type ℓ} (p : Packet T) (selects : Selects) (val : T) (between : ℕ) where
  send_gone :
      p.receiver_disconnected ≡ true
      → send p selects val between ≡ some (p, selects, [], err (val, disconnected))
  unfolding send
  send_gone e = simp e

  send_here :
      {q r s s' : Packet T} {selects' : Selects} {outs : List (Result T Error)} {old : Option T}
      {buf : List (Option T)}
      → p.receiver_disconnected ≡ false
      → recvs between p ≡ some (q, outs)
      → make_room p.write_pos p.read_pos q ≡ some (r, old)
      → Ring.write r.buf r.cap_mask p.write_pos val ≡ some buf
      → notify_sleeping (record r { buf = buf; write_pos = add_usize p.write_pos 1 }) false ≡ some s
      → notify_wait_queue s selects ≡ some (s', selects')
      → send p selects val between ≡ some (s', selects', outs, ok old)
  unfolding send
  send_here e received made wrote woke told =
      simp e (rw (received, ◌>>=◌, made, ◌>>=◌, wrote, ◌>>=◌, woke, ◌>>=◌, told, ◌>>=◌) refl)

module _ {ℓ} {T : Type ℓ} {k : ℕ} (p : Packet T) {c : Chan T} (m : Models k p c) where
  -- Of a packet that stands for a queue, with valid `Select` objects and the mutex free, a send does
  -- not fault, however many receives come between its load of the positions and its
  -- compare-and-swap: the replies are those of a queue of `2 ^ k` places that does the receives first
  -- and then the send, which gives back the oldest message if the queue is still full, and the packet
  -- then stands for that queue.
  pub send_refines :
      (selects : Selects) (val : T) (between : ℕ)
      → AllValid selects
      → p.sleeping_mutex ≡ false
      → let (c', outs, out) = chan_send (2 ^ k) c val between in
        (p' : Packet T) × (selects' : Selects) × (send p selects val between
          ≡ some (p', selects', outs, out))
        × Models k p' c'
        × AllValid selects'
  send_refines selects val between valid lock = elim (Bool-cases c.receiver_gone) [
    | inl gone ↦
        rw (chan_send_gone (2 ^ k) c val between gone)
          (p, selects, send_gone p selects val between (m.receiver ∙ gone), m, valid)
    | inr here ↦
        let (q, received, (mq, wq, sq, lq, rq, nq, gq)) = recvs_lem between p m in
        let (r, old, e, made, mr, wr, sr, lr, room, over) = make_room_lem p m q mq wq rq nq in
        let (buf, wrote, mw) = stored r mr val room in
        let (watch, selects', done, hint, name, told, valid') =
          notify_wait_queue_packet
            (woken (record r { buf = buf; write_pos = add_usize r.write_pos 1 })) mw selects
            valid in
        rw (chan_send_here (2 ^ k) c (Channel.push e val) val between old here (over val)) (
          record (woken (record r { buf = buf; write_pos = add_usize r.write_pos 1 })) {
            watch = watch;
          },
          selects',
          send_here p selects val between (m.receiver ∙ here) received made
              (ap (λ t. Ring.write r.buf r.cap_mask t val) (sym wr) ∙ wrote)
              (ap (λ t. notify_sleeping (record r { buf = buf; write_pos = add_usize t 1 }) false)
                  (sym wr)
                ∙ notify_sleeping_lem (record r { buf = buf; write_pos = add_usize r.write_pos 1 })
                    false (lr ∙ lq ∙ lock))
              done,
          Models-watch mw watch hint name,
          valid',
        )
  ]
