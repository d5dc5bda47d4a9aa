-- ===== src/Mpsc/BoundedFast/Ends.antt =====
-- The ends of the fast bounded MPSC channel that come and go, and the mutex.
use comm.Prelude.{
  ℕ, ◌<◌, ◌^◌, ◌+◌, ◌-◌, ◌≡◌, refl, ◌∙◌, ap, Bool, true, false, ◌&&◌, some, arith, ◌==◌, ltb,
  if◌then◌else◌, Bool-cases, if_true, if_false, inl, inr, occurs, add_usize, sub_usize,
}
use comm.Channel.Ends.{add_usize_one, sub_usize_one, less_one}
use comm.Channel.Peers.{Peers}
use comm.Select.WaitQueue.{Selects}
use comm.Select.WaitQueue.Told.{Told-same, AllTold}
use comm.Mpsc.BoundedFast.{Packet, State, add_sender, remove_sender, remove_receiver}
use comm.Mpsc.BoundedFast.Calls.{tell}
use comm.Mpsc.BoundedFast.Models.{Models}

module _ {ℓ} {T : Type ℓ} (k : ℕ) (p : Packet T) (selects : Selects) (c : Peers T) where
  -- Who sleeps is not part of what a packet stands for.
  pub Models-sleep :
      {mutex : Bool} (held asleep : Bool) (sleeping : ℕ)
      → Models k mutex (p, selects) c
      → Models k held
          (
            record p {
              sleep_mutex = held;
              have_sleeping_receiver = asleep;
              sleeping_senders = sleeping;
            },
            selects,
          )
          c
  Models-sleep held asleep sleeping m = record {
    queue = m.queue;
    senders = m.senders;
    receiver = m.receiver;
    few_senders = m.few_senders;
    one_receiver = m.one_receiver;
    lock = refl;
    hint = m.hint;
    address = m.address;
    valid = m.valid;
  }

  module _ (m : Models k false (p, selects) c) where
    pub add_sender_lem :
        c.senders + 1 < 2 ^ 64
        → Models k false (add_sender p, selects) (record c { senders = c.senders + 1 })
    add_sender_lem few = record {
      queue = m.queue;
      senders = ap (λ n. add_usize n 1) m.senders ∙ add_usize_one c.senders few;
      receiver = m.receiver;
      few_senders = few;
      one_receiver = m.one_receiver;
      lock = m.lock;
      hint = m.hint;
      address = m.address;
      valid = m.valid;
    }

    -- Of a packet that stands for a queue, with the mutex free, `remove_receiver` does not fault: every
    -- message stays, and all senders that sleep are woken.
    pub remove_receiver_lem :
        (p' : Packet T) × (remove_receiver p ≡ some p')
        × Models k false (p', selects) (record c { receivers = 0 })
        × (p'.send_condvar_all
            ≡ (if ltb 0 p.sleeping_senders then p.send_condvar_all + 1 else p.send_condvar_all))
    unfolding remove_receiver
    remove_receiver_lem = (
      record p {
        receiver_disconnected = true;
        send_condvar_all =
            if ltb 0 p.sleeping_senders then p.send_condvar_all + 1 else p.send_condvar_all;
      },
      if_false _ _ m.lock,
      record {
        queue = m.queue;
        senders = m.senders;
        receiver = refl;
        few_senders = m.few_senders;
        one_receiver = omega arith;
        lock = m.lock;
        hint = m.hint;
        address = m.address;
        valid = m.valid;
      },
      refl,
    )

    fewer :
        (recv_condvar : ℕ)
        → 0 < c.senders
        → Models k false
            (
              record p { num_senders = sub_usize p.num_senders 1; recv_condvar = recv_condvar },
              selects,
            )
            (record c { senders = c.senders - 1 })
    fewer recv_condvar alive = record {
      queue = m.queue;
      senders = ap (λ n. sub_usize n 1) m.senders ∙ sub_usize_one c.senders alive m.few_senders;
      receiver = m.receiver;
      few_senders = less_one c.senders m.few_senders;
      one_receiver = m.one_receiver;
      lock = m.lock;
      hint = m.hint;
      address = m.address;
      valid = m.valid;
    }

    -- Of a packet that stands for a queue, with valid `Select` objects and the mutex free, `remove_sender`
    -- does not fault: every message stays, and when the last sender goes, a sleeping receiver is woken
    -- and every `Select` object in the wait queue is told. Before that, nobody is.
    pub remove_sender_lem :
        0 < c.senders
        → (s : State T) × (remove_sender p selects ≡ some s)
          × Models k false s (record c { senders = c.senders - 1 })
          × AllTold p.watch.queue.id
              (λ a. (c.senders == 1) && occurs a p.watch.queue.queue)
              selects
              s.1
    unfolding remove_sender
    remove_sender_lem alive =
        let woken : ℕ = if p.have_sleeping_receiver then p.recv_condvar + 1 else p.recv_condvar in
        let q : Packet T = record p { num_senders = sub_usize p.num_senders 1 } in
        elim (Bool-cases (c.senders == 1)) [
          | inl last ↦
              let (s, done, ms, told) =
                tell k false p (record q { recv_condvar = woken }) selects
                  (record c { senders = c.senders - 1 }) (fewer woken alive) refl in
              rw last (
                s,
                if_true _ _ (ap (λ n. n == 1) m.senders ∙ last) ∙ if_false _ _ m.lock ∙ done,
                ms,
                told,
              )
          | inr more ↦ rw more (
            (q, selects),
            if_false _ _ (ap (λ n. n == 1) m.senders ∙ more),
            fewer p.recv_condvar alive,
            λ a. (refl, λ s e. (s, e, Told-same p.watch.queue.id s)),
          )
        ]
