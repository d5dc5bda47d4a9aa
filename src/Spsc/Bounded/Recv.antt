-- ===== src/Spsc/Bounded/Recv.antt =====
-- `recv_async` of the bounded SPSC channel receives as the queue does; the other calls that end at
-- once.
use comm.Prelude.{
  ℕ, ◌+◌, ◌≡◌, refl, ◌∙◌, ap, Bool, true, false, not, Option, some, List, [], ◌∷◌, arith, length,
  ◌==◌, if◌then◌else◌, Bool-cases, inl, inr, add_usize, Result, Error, ok, err, disconnected, empty,
  is_ok, subst,
}
use comm.Channel
use comm.Channel.{Chan}
use comm.Channel.Calls.{is_empty_err}
use comm.Ring
use comm.Ring.Laws.{Holds, read_lem}
use comm.Spsc.Bounded.{Packet, recv_async, ready}
use comm.Spsc.Bounded.Models.{Models, Keeps, Keeps-refl, woken, notify_sleeping_lem, empty_packet}

module _ {ℓ} {T : Type ℓ} {k : ℕ} (p : Packet T) {c : Chan T} (m : Models k p c) where
  -- The stores of a receive that finds a message.
  taken :
      (x : T) (xs : List T)
      → c.items ≡ x ∷ xs
      → (buf : List (Option T)) × (Ring.read p.buf p.cap_mask p.read_pos ≡ some (x, buf))
        × Models k
            (woken (record p { buf = buf; read_pos = add_usize p.read_pos 1 }))
            (record c { items = xs })
  taken x xs e =
      let (buf, done, size, holds) =
        read_lem k 64 (omega (arith, m.fits)) p.buf p.read_pos x xs m.size
          (omega (arith, ap length e, m.room)) (subst (Holds k p.buf p.read_pos) e m.holds) in
      (
        buf,
        rw m.mask done,
        record {
          fits = m.fits;
          mask = m.mask;
          size = size;
          range = omega arith;
          write_at = omega (arith, m.write_at, ap length e);
          room = omega (arith, ap length e, m.room);
          holds = holds;
          sender = m.sender;
          receiver = m.receiver;
          hint = m.hint;
          address = m.address;
        },
      )

  commit_recv :
      (x : T) (xs : List T) (have_lock : Bool)
      → c.items ≡ x ∷ xs
      → p.sleeping_mutex ≡ have_lock
      → (p' : Packet T) × (recv_async p have_lock ≡ some (p', ok x))
        × Models k p' (record c { items = xs })
        × Keeps p p'
        × (p'.sleeping_condvar
            ≡ (if p.have_sleeping then p.sleeping_condvar + 1 else p.sleeping_condvar))
        × (p'.watch ≡ p.watch)
  unfolding recv_async
  commit_recv x xs have_lock e lock =
      let (buf, read, m') = taken x xs e in
      let q : Packet T = record p { buf = buf; read_pos = add_usize p.read_pos 1 } in
      (
        woken q,
        simp (some_left, read, notify_sleeping_lem q have_lock lock),
        m',
        record { id = refl; have_sleeping = refl; sleeping_mutex = refl; name = refl },
        refl,
        refl,
      )
    where
      some_left : (p.write_pos == p.read_pos) ≡ false
      some_left = empty_packet p m ∙ rw e (ground arith)

  none_left :
      (have_lock : Bool)
      → c.items ≡ []
      → recv_async p have_lock ≡ some (p, err (if c.sender_gone then disconnected else empty))
  unfolding recv_async
  none_left have_lock e = simp (empty_packet p m, e, m.sender)

  recv_items_refines :
      (have_lock : Bool) (items : List T)
      → c.items ≡ items
      → p.sleeping_mutex ≡ have_lock
      → let (c', out) = Channel.recv_items c items in
        (p' : Packet T) × (recv_async p have_lock ≡ some (p', out))
        × Models k p' c'
        × Keeps p p'
        × (p'.watch ≡ p.watch)
        × (is_ok out ≡ true
            → p'.sleeping_condvar
              ≡ (if p.have_sleeping then p.sleeping_condvar + 1 else p.sleeping_condvar))
  recv_items_refines have_lock [] e lock =
      (p, none_left have_lock e, m, Keeps-refl p, refl, λ t. cc)
  recv_items_refines have_lock (x ∷ xs) e lock =
      let (p', done, m', keeps, woke, watch) = commit_recv x xs have_lock e lock in
      (p', done, m', keeps, watch, λ t. woke)

  -- Of a packet that stands for a queue, with a caller that says truly whether it holds the mutex,
  -- `recv_async` does not fault: it gives the oldest message, or the reason why there is none, as the
  -- queue does, and the packet then stands for the queue after that. A message that is received wakes
  -- a sleeping sender.
  pub recv_async_refines :
      (have_lock : Bool)
      → p.sleeping_mutex ≡ have_lock
      → let (c', out) = Channel.recv c in
        (p' : Packet T) × (recv_async p have_lock ≡ some (p', out))
        × Models k p' c'
        × Keeps p p'
        × (p'.watch ≡ p.watch)
        × (is_ok out ≡ true
            → p'.sleeping_condvar
              ≡ (if p.have_sleeping then p.sleeping_condvar + 1 else p.sleeping_condvar))
  unfolding Channel.recv
  recv_async_refines have_lock lock = recv_items_refines have_lock c.items refl lock

  ready_items :
      (items : List T)
      → c.items ≡ items
      → ready p ≡ not (is_empty_err (Channel.recv_items c items).1)
  unfolding ready is_empty_err
  ready_items [] e = elim (Bool-cases c.sender_gone) [
    | inl gone ↦ ground (arith, m.sender, gone)
    | inr here ↦ ground (arith, m.sender, here, empty_packet p m, ap length e)
  ]
  ready_items (x ∷ xs) e = ground (arith, empty_packet p m, ap length e)

  -- Of a packet that stands for a queue, with a caller that says truly whether it holds the mutex, the
  -- packet is ready exactly when `recv_async` does not answer `empty`: that is, when it gives a message or
  -- answers that the sender has gone.
  pub ready-recv :
      (have_lock : Bool)
      → p.sleeping_mutex ≡ have_lock
      → (p' : Packet T) × (out : Result T Error) × (recv_async p have_lock ≡ some (p', out))
        × (ready p ≡ not (is_empty_err out))
  unfolding Channel.recv
  ready-recv have_lock lock =
      let (p', done, m', keeps, watch, woke) = recv_async_refines have_lock lock in
      (p', (Channel.recv c).1, done, ready_items c.items refl)
