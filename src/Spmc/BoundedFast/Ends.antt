-- ===== src/Spmc/BoundedFast/Ends.antt =====
-- The ends of the fast bounded SPMC channel that come and go, and the mutex.
use comm.Prelude.{
  ℕ, ◌<◌, ◌^◌, ◌+◌, ◌-◌, ◌≡◌, refl, ◌∙◌, ap, Bool, true, false, ◌&&◌, some, arith, ◌==◌, ltb,
  if◌then◌else◌, Bool-cases, if_true, if_false, inl, inr, occurs, add_usize, sub_usize,
}
use comm.Channel.Ends.{add_usize_one, sub_usize_one, less_one}
use comm.Channel.Peers.{Peers}
use comm.Select.WaitQueue.{Selects}
use comm.Select.WaitQueue.Told.{AllTold}
use comm.Spmc.BoundedFast.{Packet, State, add_receiver, remove_sender, remove_receiver}
use comm.Spmc.BoundedFast.Calls.{tell}
use comm.Spmc.BoundedFast.Models.{Models}

module _ {ℓ} {T : Type ℓ} (k : ℕ) (p : Packet T) (selects : Selects) (c : Peers T) where
  -- Who sleeps is not part of what a packet stands for.
  pub Models-sleep :
      {mutex : Bool} (held asleep : Bool) (sleeping : ℕ)
      → Models k mutex (p, selects) c
      → Models k held
          (
            record p {
              sleep_mutex = held;
              have_sleeping_sender = asleep;
              sleeping_receivers = sleeping;
            },
            selects,
          )
          c
  Models-sleep held asleep sleeping m = record {
    queue = m.queue;
    receivers = m.receivers;
    sender = m.sender;
    few_receivers = m.few_receivers;
    one_sender = m.one_sender;
    lock = refl;
    hint = m.hint;
    address = m.address;
    valid = m.valid;
  }

  module _ (m : Models k false (p, selects) c) where
    pub add_receiver_lem :
        c.receivers + 1 < 2 ^ 64
        → Models k false (add_receiver p, selects) (record c { receivers = c.receivers + 1 })
    add_receiver_lem few = record {
      queue = m.queue;
      receivers = ap (λ n. add_usize n 1) m.receivers ∙ add_usize_one c.receivers few;
      sender = m.sender;
      few_receivers = few;
      one_sender = m.one_sender;
      lock = m.lock;
      hint = m.hint;
      address = m.address;
      valid = m.valid;
    }

    fewer :
        (send_condvar : ℕ)
        → 0 < c.receivers
        → Models k false
            (
              record p { num_receivers = sub_usize p.num_receivers 1; send_condvar = send_condvar },
              selects,
            )
            (record c { receivers = c.receivers - 1 })
    fewer send_condvar alive = record {
      queue = m.queue;
      receivers =
          ap (λ n. sub_usize n 1) m.receivers ∙ sub_usize_one c.receivers alive m.few_receivers;
      sender = m.sender;
      few_receivers = less_one c.receivers m.few_receivers;
      one_sender = m.one_sender;
      lock = m.lock;
      hint = m.hint;
      address = m.address;
      valid = m.valid;
    }

    -- Of a packet that stands for a queue, with the mutex free, `remove_receiver` does not fault: every
    -- message stays, and when the last receiver goes, a sender that sleeps is woken.
    pub remove_receiver_lem :
        0 < c.receivers
        → (p' : Packet T) × (remove_receiver p ≡ some p')
          × Models k false (p', selects) (record c { receivers = c.receivers - 1 })
          × (p'.send_condvar ≡ (
              if (c.receivers == 1) && p.have_sleeping_sender
              then p.send_condvar + 1
              else p.send_condvar))
    unfolding remove_receiver
    remove_receiver_lem alive =
        let woken : ℕ = if p.have_sleeping_sender then p.send_condvar + 1 else p.send_condvar in
        elim (Bool-cases (c.receivers == 1)) [
          | inl last ↦ rw last (
            record p { num_receivers = sub_usize p.num_receivers 1; send_condvar = woken },
            if_true _ _ (ap (λ n. n == 1) m.receivers ∙ last) ∙ if_false _ _ m.lock,
            fewer woken alive,
            refl,
          )
          | inr more ↦ rw more (
            record p { num_receivers = sub_usize p.num_receivers 1 },
            if_false _ _ (ap (λ n. n == 1) m.receivers ∙ more),
            fewer p.send_condvar alive,
            refl,
          )
        ]

    gone :
        (recv_condvar_all : ℕ)
        → Models k false
            (record p { sender_disconnected = true; recv_condvar_all = recv_condvar_all }, selects)
            (record c { senders = 0 })
    gone recv_condvar_all = record {
      queue = m.queue;
      receivers = m.receivers;
      sender = refl;
      few_receivers = m.few_receivers;
      one_sender = omega arith;
      lock = m.lock;
      hint = m.hint;
      address = m.address;
      valid = m.valid;
    }

    -- Of a packet that stands for a queue, with valid `Select` objects and the mutex free, `remove_sender`
    -- does not fault: every message stays, all receivers that sleep are woken, and every `Select` object in
    -- the wait queue is told.
    pub remove_sender_lem :
        (s : State T) × (remove_sender p selects ≡ some s)
        × Models k false s (record c { senders = 0 })
        × AllTold p.watch.queue.id (λ a. occurs a p.watch.queue.queue) selects s.1
    unfolding remove_sender
    remove_sender_lem =
        let woken : ℕ =
          if ltb 0 p.sleeping_receivers then p.recv_condvar_all + 1 else p.recv_condvar_all in
        let (s, done, ms, told) =
          tell k false p (record p { sender_disconnected = true; recv_condvar_all = woken }) selects
            (record c { senders = 0 }) (gone woken) refl in
        (s, if_false _ _ m.lock ∙ done, ms, told)
