-- ===== src/Mpmc/Bounded/Sync/Rounds.antt =====
-- A round of a blocking call of the bounded MPMC channel does what the channel promises.
use comm.Prelude.{
  ℕ, ◌^◌, ◌≤◌, ◌≡◌, refl, subst, ◌∙◌, ap, Bool, true, false, some, List, [], ◌∷◌, ◌++◌, ◌>>=◌,
  arith, length, ◌==◌, Bool-cases, inl, inr, if_true, if_false, ok, err, full, empty,
}
use comm.Select.WaitQueue.{Selects}
use comm.Select.WaitQueue.Told.{AllValid}
use comm.Mpmc.Bounded.{Packet, State}
use comm.Mpmc.Bounded.Models.{Models, Models-counts, SameCounts, put, get}
use comm.Mpmc.Bounded.Recv.{recv_async_lem}
use comm.Mpmc.Bounded.Send.{send_async_lem}
use comm.Mpmc.Bounded.Sync.{is_deadlock, send_tried, recv_tried, send_round, recv_round}
use comm.Mpmc.Bounded.Sync.Counts.{Party, is_alone, Stands, spec_send, spec_recv}

-- A peer that is awake finds a deadlock if it is the only one that is not asleep on its own side.
is_deadlock_lem : (awake others : ℕ) → 1 ≤ awake → is_deadlock awake others ≡ is_alone awake others
is_deadlock_lem awake others up = ground arith

module _ {ℓ} {T : Type ℓ} (k : ℕ) where
  send_tried_full :
      (p : Packet T) (selects : Selects) (c : Party T) (val : T)
      → Stands k true (p, selects) c
      → 1 ≤ c.awake
      → 1 ≤ c.senders
      → (length c.items == 2 ^ k) ≡ true
      → let (c', reply) = spec_send k c val in
        (s' : State T) × (send_tried ((p, selects), err (val, full)) ≡ (s', reply))
        × Stands k false s' c'
  unfolding send_tried spec_send
  send_tried_full p selects c val r up asleep e =
      let same : is_deadlock p.peers_awake p.sleeping_receivers ≡ is_alone c.awake c.receivers =
        rw (r.awake, r.receivers) (is_deadlock_lem c.awake c.receivers up) in
      rw e (elim (Bool-cases (is_alone c.awake c.receivers)) [
        | inl stuck ↦ rw stuck (
          _,
          if_true _ _ (same ∙ stuck),
          record {
            queue = Models-counts _ _ _ _ r.queue;
            awake = omega (arith, r.awake, r.few);
            senders = omega (arith, r.senders, r.few);
            receivers = r.receivers;
            few = omega (arith, r.few);
            lock = refl;
            valid = r.valid;
          },
        )
        | inr mixed ↦ rw mixed (
          _,
          if_false _ _ (same ∙ mixed),
          record {
            queue = Models-counts _ _ _ _ r.queue;
            awake = omega (arith, r.awake, r.few);
            senders = r.senders;
            receivers = r.receivers;
            few = omega (arith, r.few);
            lock = refl;
            valid = r.valid;
          },
        )
      ])

  recv_tried_empty :
      (p : Packet T) (selects : Selects) (c : Party T)
      → Stands k true (p, selects) (record c { items = [] })
      → 1 ≤ c.awake
      → 1 ≤ c.receivers
      → let (c', reply) = spec_recv c [] in
        (p' : Packet T) × (recv_tried (p, err empty) ≡ (p', reply))
        × Stands k false (p', selects) c'
  unfolding recv_tried spec_recv
  recv_tried_empty p selects c r up asleep =
      let same : is_deadlock p.peers_awake p.sleeping_senders ≡ is_alone c.awake c.senders =
        rw (r.awake, r.senders) (is_deadlock_lem c.awake c.senders up) in
      elim (Bool-cases (is_alone c.awake c.senders)) [
        | inl stuck ↦ rw stuck (
          _,
          if_true _ _ (same ∙ stuck),
          record {
            queue = Models-counts _ _ _ _ r.queue;
            awake = omega (arith, r.awake, r.few);
            senders = r.senders;
            receivers = omega (arith, r.receivers, r.few);
            few = omega (arith, r.few);
            lock = refl;
            valid = r.valid;
          },
        )
        | inr mixed ↦ rw mixed (
          _,
          if_false _ _ (same ∙ mixed),
          record {
            queue = Models-counts _ _ _ _ r.queue;
            awake = omega (arith, r.awake, r.few);
            senders = r.senders;
            receivers = r.receivers;
            few = omega (arith, r.few);
            lock = refl;
            valid = r.valid;
          },
        )
      ]

  send_tried_room :
      (p : Packet T) (selects : Selects) (c : Party T) (val : T)
      → Stands k true (p, selects) (record c { items = c.items ++ (val ∷ []) })
      → 1 ≤ c.awake
      → 1 ≤ c.senders
      → (length c.items == 2 ^ k) ≡ false
      → let (c', reply) = spec_send k c val in
        (s' : State T) × (send_tried ((p, selects), ok tt) ≡ (s', reply)) × Stands k false s' c'
  unfolding send_tried spec_send
  send_tried_room p selects c val r up asleep e = rw e (
    _,
    refl,
    record {
      queue = Models-counts _ _ _ _ r.queue;
      awake = r.awake;
      senders = omega (arith, r.senders, r.few);
      receivers = r.receivers;
      few = omega (arith, r.few);
      lock = refl;
      valid = r.valid;
    },
  )

  put_full :
      (items : List T) (val : T)
      → (length items == 2 ^ k) ≡ true
      → put (2 ^ k) items val ≡ (items, err (val, full))
  unfolding put
  put_full items val e = if_true _ _ e

  put_room :
      (items : List T) (val : T)
      → (length items == 2 ^ k) ≡ false
      → put (2 ^ k) items val ≡ (items ++ (val ∷ []), ok tt)
  unfolding put
  put_room items val e = if_false _ _ e

  -- After a call that leaves the counts alone, the packet stands for the same numbers of peers.
  pub same-Stands :
      {mutex : Bool} (s s' : State T) (c : Party T) (items : List T)
      → Stands k mutex s c
      → Models k s'.0 items
      → SameCounts s.0 s'.0
      → AllValid s'.1
      → Stands k mutex s' (record c { items = items })
  same-Stands s s' c items r m kept valid = record {
    queue = m;
    awake = kept.awake ∙ r.awake;
    senders = kept.senders ∙ r.senders;
    receivers = kept.receivers ∙ r.receivers;
    few = r.few;
    lock = kept.mutex ∙ r.lock;
    valid = valid;
  }

  pub send_round_lem :
      (p : Packet T) (selects : Selects) (c : Party T) (val : T)
      → Stands k true (p, selects) c
      → 1 ≤ c.awake
      → 1 ≤ c.senders
      → let (c', reply) = spec_send k c val in
        (s' : State T) × (send_round p selects val ≡ some (s', reply)) × Stands k false s' c'
  unfolding send_round
  send_round_lem p selects c val r up asleep =
      let (s, done, m, valid, told, kept) =
        send_async_lem k p selects val true c.items r.queue r.lock r.valid in
      let r' = same-Stands (p, selects) s c _ r m kept valid in
      elim (Bool-cases (length c.items == 2 ^ k)) [
        | inl e ↦
            let m' =
              subst (λ t. Stands k true s (record c { items = t.0 })) (put_full c.items val e) r' in
            let (s', tried, out) = send_tried_full s.0 s.1 c val m' up asleep e in
            (
              s',
              rw (done ∙ ap (λ t. some (s, t.1)) (put_full c.items val e), ◌>>=◌) (ap some tried),
              out,
            )
        | inr e ↦
            let m' =
              subst (λ t. Stands k true s (record c { items = t.0 })) (put_room c.items val e) r' in
            let (s', tried, out) = send_tried_room s.0 s.1 c val m' up asleep e in
            (
              s',
              rw (done ∙ ap (λ t. some (s, t.1)) (put_room c.items val e), ◌>>=◌) (ap some tried),
              out,
            )
      ]

  recv_tried_some :
      (p : Packet T) (selects : Selects) (c : Party T) (x : T) (xs : List T)
      → Stands k true (p, selects) (record c { items = xs })
      → 1 ≤ c.receivers
      → let (c', reply) = spec_recv c (x ∷ xs) in
        (p' : Packet T) × (recv_tried (p, ok x) ≡ (p', reply)) × Stands k false (p', selects) c'
  unfolding recv_tried spec_recv
  recv_tried_some p selects c x xs r asleep = (
    _,
    refl,
    record {
      queue = Models-counts _ _ _ _ r.queue;
      awake = r.awake;
      senders = r.senders;
      receivers = omega (arith, r.receivers, r.few);
      few = omega (arith, r.few);
      lock = refl;
      valid = r.valid;
    },
  )

  pub recv_round_lem :
      (p : Packet T) (selects : Selects) (c : Party T) (items : List T)
      → c.items ≡ items
      → Stands k true (p, selects) c
      → 1 ≤ c.awake
      → 1 ≤ c.receivers
      → let (c', reply) = spec_recv c items in
        (p' : Packet T) × (recv_round p ≡ some (p', reply)) × Stands k false (p', selects) c'
  unfolding recv_round get
  recv_round_lem p selects c [] e r up asleep =
      let (q, done, m, same, kept) =
        recv_async_lem k p true r.lock [] (subst (Models k p) e r.queue) in
      let r' = same-Stands (p, selects) (q, selects) c [] r m kept r.valid in
      let (p', tried, out) = recv_tried_empty q selects c r' up asleep in
      (p', rw (done, ◌>>=◌) (ap some tried), out)
  recv_round_lem p selects c (x ∷ xs) e r up asleep =
      let (q, done, m, same, kept) =
        recv_async_lem k p true r.lock (x ∷ xs) (subst (Models k p) e r.queue) in
      let r' = same-Stands (p, selects) (q, selects) c xs r m kept r.valid in
      let (p', tried, out) = recv_tried_some q selects c x xs r' asleep in
      (p', rw (done, ◌>>=◌) (ap some tried), out)
