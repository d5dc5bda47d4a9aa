-- ===== src/Mpmc/Bounded/Sync/Run.antt =====
-- Peers in any order do what the channel promises, and are never all asleep on the same side.
use comm.Prelude.{
  ℕ, ◌+◌, ◌-◌, ◌≤◌, ◌≡◌, refl, sym, subst, ◌∙◌, ap, true, false, some, List, ◌>>=◌, arith, ◌==◌,
  ltb, Bool-cases, inl, inr, if_true, if_false, add_usize, sub_usize,
}
use comm.Select.WaitQueue.{Selects}
use comm.Simulation.{run, spec_run, AllAllowed, run_lem}
use comm.Mpmc.Bounded.{Packet, State, remove_peer, notify_wait_queue}
use comm.Mpmc.Bounded.Calls.{wait_queue_told}
use comm.Mpmc.Bounded.Models.{Models, Models-counts, Models-condvars}
use comm.Mpmc.Bounded.Recv.{recv_async_lem}
use comm.Mpmc.Bounded.Send.{send_async_lem}
use comm.Mpmc.Bounded.Sync.{Turn, step}
use comm.Mpmc.Bounded.Sync.Counts.{Party, Stands, IsTurn, spec}
use comm.Mpmc.Bounded.Sync.Rounds.{same-Stands, send_round_lem, recv_round_lem}

module _ {ℓ} {T : Type ℓ} (k : ℕ) where
  -- The end of a peer that wakes somebody up.
  last_leaves :
      (q : Packet T) (selects : Selects) (c : Party T)
      → Stands k false (q, selects) c
      → (s : State T) × (notify_wait_queue q selects ≡ some s) × Stands k false s c
  last_leaves q selects c r =
      let (s, done, m, valid, told, kept) = wait_queue_told k q selects c.items r.queue r.valid in
      (s, done, same-Stands k (q, selects) s c c.items r m kept valid)

  remove_peer_lem :
      (p : Packet T) (selects : Selects) (c : Party T)
      → Stands k false (p, selects) c
      → 1 ≤ c.awake
      → (s : State T) × (remove_peer p selects ≡ some s)
        × Stands k false s (record c { awake = c.awake - 1 })
  unfolding remove_peer
  remove_peer_lem p selects c r up = elim (Bool-cases (p.peers_awake == 1)) [
    | inr others ↦ (
      _,
      if_false _ _ others,
      record {
        queue = Models-counts _ _ _ _ r.queue;
        awake = omega (arith, r.awake, r.few);
        senders = r.senders;
        receivers = r.receivers;
        few = omega (arith, r.few);
        lock = r.lock;
        valid = r.valid;
      },
    )
    | inl last ↦
        let left : (sends recvs : ℕ)
            → Stands k false
                (
                  record p {
                    peers_awake = sub_usize p.peers_awake 1;
                    send_condvar = sends;
                    recv_condvar = recvs;
                  },
                  selects,
                )
                (record c { awake = c.awake - 1 }) =
          λ sends recvs. record {
            queue = Models-counts _ _ _ _ (Models-condvars sends recvs r.queue);
            awake = omega (arith, r.awake, r.few);
            senders = r.senders;
            receivers = r.receivers;
            few = omega (arith, r.few);
            lock = r.lock;
            valid = r.valid;
          } in
        elim (Bool-cases (ltb 0 p.sleeping_receivers)) [
          | inl someone ↦
              let (s, done, out) =
                last_leaves _ selects _ (left p.send_condvar (p.recv_condvar + 1)) in
              (
                s,
                if_true _ _ last
                    ∙ if_false _ _ r.lock
                    ∙ ap (λ (q : Packet T). notify_wait_queue q selects) (if_true _ _ someone)
                    ∙ done,
                out,
              )
          | inr nobody ↦
              let (s, done, out) =
                last_leaves _ selects _ (left (p.send_condvar + 1) p.recv_condvar) in
              (
                s,
                if_true _ _ last
                    ∙ if_false _ _ r.lock
                    ∙ ap (λ (q : Packet T). notify_wait_queue q selects) (if_false _ _ nobody)
                    ∙ done,
                out,
              )
        ]
  ]

  -- The packet of a peer that takes the mutex, when it begins to sleep and when it wakes up.
  locked :
      (p : Packet T) (selects : Selects) (c c' : Party T) (awake senders receivers : ℕ)
      → Stands k false (p, selects) c
      → awake ≡ c'.awake
      → senders ≡ c'.senders
      → receivers ≡ c'.receivers
      → c'.items ≡ c.items
      → c'.awake + c'.senders + c'.receivers ≤ 1 + (c.awake + c.senders + c.receivers)
      → Stands k true
          (
            record p {
              peers_awake = awake;
              sleeping_senders = senders;
              sleeping_receivers = receivers;
              sleep_mutex = true;
            },
            selects,
          )
          c'
  locked p selects c c' awake senders receivers r ea es er ei few = record {
    queue = subst (Models k _) (sym ei) (Models-counts _ _ _ _ r.queue);
    awake = ea;
    senders = es;
    receivers = er;
    few = omega (arith, r.few, few);
    lock = refl;
    valid = r.valid;
  }

  step_lem :
      (s : State T) (c : Party T) (turn : Turn T)
      → Stands k false s c
      → IsTurn c turn
      → (s' : State T) × (step s turn ≡ some (s', (spec k c turn).1))
        × Stands k false s' (spec k c turn).0
  unfolding step spec
  step_lem (p, selects) c (Turn.send_async val) r up =
      let (s', done, m, valid, told, kept) =
        send_async_lem k p selects val false c.items r.queue r.lock r.valid in
      (s', rw (done, ◌>>=◌) refl, same-Stands k (p, selects) s' c _ r m kept valid)
  step_lem (p, selects) c Turn.recv_async r up =
      let (p', done, m, same, kept) = recv_async_lem k p false r.lock c.items r.queue in
      (
        (p', selects),
        rw (done, ◌>>=◌) refl,
        same-Stands k (p, selects) (p', selects) c _ r m kept r.valid,
      )
  step_lem (p, selects) c Turn.clone r up = (
    _,
    refl,
    record {
      queue = Models-counts _ _ _ _ r.queue;
      awake = omega (arith, r.awake, up);
      senders = r.senders;
      receivers = r.receivers;
      few = omega (arith, up);
      lock = r.lock;
      valid = r.valid;
    },
  )
  step_lem (p, selects) c Turn.drop r up =
      let (s', done, out) = remove_peer_lem p selects c r up in (s', rw (done, ◌>>=◌) refl, out)
  step_lem (p, selects) c (Turn.send_lock val) r up =
      send_round_lem k _ selects _ val
        (locked p selects c (record c { senders = c.senders + 1 }) p.peers_awake
          (add_usize p.sleeping_senders 1) p.sleeping_receivers r r.awake
          (omega (arith, r.senders, r.few)) r.receivers refl (omega arith))
        up (omega arith)
  step_lem (p, selects) c (Turn.send_wake val) r up =
      send_round_lem k _ selects _ val
        (locked p selects c (record c { awake = c.awake + 1 }) (add_usize p.peers_awake 1)
          p.sleeping_senders p.sleeping_receivers r (omega (arith, r.awake, r.few)) r.senders
          r.receivers refl (omega arith))
        (omega arith) up
  step_lem (p, selects) c Turn.recv_lock r up =
      let (p', done, out) =
        recv_round_lem k _ selects (record c { receivers = c.receivers + 1 }) c.items refl
          (locked p selects c (record c { receivers = c.receivers + 1 }) p.peers_awake
            p.sleeping_senders (add_usize p.sleeping_receivers 1) r r.awake r.senders
            (omega (arith, r.receivers, r.few)) refl (omega arith))
          up (omega arith) in
      ((p', selects), rw (done, ◌>>=◌) refl, out)
  step_lem (p, selects) c Turn.recv_wake r up =
      let (p', done, out) =
        recv_round_lem k _ selects (record c { awake = c.awake + 1 }) c.items refl
          (locked p selects c (record c { awake = c.awake + 1 }) (add_usize p.peers_awake 1)
            p.sleeping_senders p.sleeping_receivers r (omega (arith, r.awake, r.few)) r.senders
            r.receivers refl (omega arith))
          (omega arith) up in
      ((p', selects), rw (done, ◌>>=◌) refl, out)

  -- From a packet that stands for a queue with its numbers of peers that are awake, that sleep in a send
  -- and that sleep in a receive, no sequence of turns that the peers can take faults, and every reply is
  -- that of the queue of `2 ^ k` places: a blocking call sleeps if it finds the queue full or empty, or
  -- reports a deadlock if no other peer is then awake and none sleeps on the other side.
  pub mpmc_run_refines :
      (turns : List (Turn T)) (s : State T) (c : Party T)
      → Stands k false s c
      → AllAllowed (spec k) IsTurn c turns
      → (s' : State T) × (run step s turns ≡ some (s', (spec_run (spec k) c turns).1))
        × Stands k false s' (spec_run (spec k) c turns).0
  mpmc_run_refines = run_lem step (spec k) IsTurn (Stands k false) step_lem
