-- ===== src/Mpmc/Bounded/Sync/Awake.antt =====
-- The deadlock detection of the bounded MPMC channel: the peers never all sleep on one side.
use comm.Prelude.{
  ℕ, ◌+◌, ◌-◌, ◌^◌, ◌≤◌, ◌≡◌, sym, subst, ◌∙◌, false, some, List, [], ◌∷◌, arith, length, ◌==◌,
  Bool-cases, inl, inr,
}
use comm.Simulation.{run, spec_run, AllAllowed}
use comm.Mpmc.Bounded.{State}
use comm.Mpmc.Bounded.Sync.{Turn, Reply, step}
use comm.Mpmc.Bounded.Sync.Counts.{Party, is_alone, Stands, IsTurn, spec, spec_send, spec_recv}
use comm.Mpmc.Bounded.Sync.Run.{mpmc_run_refines}

-- The last peer that is awake does not go to sleep if nobody sleeps on the other side.
other_side :
    (awake others : ℕ) → is_alone awake others ≡ false → awake - 1 ≡ 0 → 1 ≤ awake → 1 ≤ others
other_side awake others e z up = ground arith

module _ {ℓ} {T : Type ℓ} where
  -- A turn that a peer can take, where the last peer that is awake is not dropped.
  abbrev pub Stays : Party T → Turn T → Type 0
  Stays c (Turn.send_async val) = IsTurn c (Turn.send_async val)
  Stays c Turn.recv_async = IsTurn c Turn.recv_async
  Stays c Turn.clone = IsTurn c Turn.clone
  Stays c Turn.drop = 2 ≤ c.awake
  Stays c (Turn.send_lock val) = IsTurn c (Turn.send_lock val)
  Stays c (Turn.send_wake val) = IsTurn c (Turn.send_wake val)
  Stays c Turn.recv_lock = IsTurn c Turn.recv_lock
  Stays c Turn.recv_wake = IsTurn c Turn.recv_wake

  -- If nobody is awake, peers sleep on both sides.
  abbrev Mixed : Party T → Type 0
  Mixed c = c.awake ≡ 0 → (1 ≤ c.senders) × (1 ≤ c.receivers)

  Stays-IsTurn : (c : Party T) (turn : Turn T) → Stays c turn → IsTurn c turn
  Stays-IsTurn c (Turn.send_async val) h = h
  Stays-IsTurn c Turn.recv_async h = h
  Stays-IsTurn c Turn.clone h = h
  Stays-IsTurn c Turn.drop h = omega (arith, h)
  Stays-IsTurn c (Turn.send_lock val) h = h
  Stays-IsTurn c (Turn.send_wake val) h = h
  Stays-IsTurn c Turn.recv_lock h = h
  Stays-IsTurn c Turn.recv_wake h = h

  module _ (k : ℕ) where
    spec_send-Mixed :
        (c : Party T) (val : T) → 1 ≤ c.awake → 1 ≤ c.senders → Mixed (spec_send k c val).0
    unfolding spec_send
    spec_send-Mixed c val up asleep = elim (Bool-cases (length c.items == 2 ^ k)) [
      | inr room ↦ rw room (λ z. absurd (omega arith))
      | inl filled ↦ elim (Bool-cases (is_alone c.awake c.receivers)) [
        | inl stuck ↦ rw (filled, stuck) (λ z. absurd (omega arith))
        | inr mixed ↦ rw (filled, mixed) (λ z. (asleep, other_side c.awake c.receivers mixed z up))
      ]
    ]

    spec_recv-Mixed :
        (c : Party T) (items : List T) → 1 ≤ c.awake → 1 ≤ c.receivers → Mixed (spec_recv c items).0
    unfolding spec_recv
    spec_recv-Mixed c (x ∷ xs) up asleep = λ z. absurd (omega arith)
    spec_recv-Mixed c [] up asleep = elim (Bool-cases (is_alone c.awake c.senders)) [
      | inl stuck ↦ rw stuck (λ z. absurd (omega arith))
      | inr mixed ↦ rw mixed (λ z. (other_side c.awake c.senders mixed z up, asleep))
    ]

    spec-Mixed : (c : Party T) (turn : Turn T) → Stays c turn → Mixed (spec k c turn).0
    unfolding spec
    spec-Mixed c (Turn.send_async val) h = λ z. absurd (omega (arith, h))
    spec-Mixed c Turn.recv_async h = λ z. absurd (omega (arith, h))
    spec-Mixed c Turn.clone h = λ z. absurd (omega arith)
    spec-Mixed c Turn.drop h = λ z. absurd (omega (arith, h))
    spec-Mixed c (Turn.send_lock val) h =
        spec_send-Mixed (record c { senders = c.senders + 1 }) val h (omega arith)
    spec-Mixed c (Turn.send_wake val) h =
        spec_send-Mixed (record c { awake = c.awake + 1 }) val (omega arith) h
    spec-Mixed c Turn.recv_lock h =
        spec_recv-Mixed (record c { receivers = c.receivers + 1 }) c.items h (omega arith)
    spec-Mixed c Turn.recv_wake h =
        spec_recv-Mixed (record c { awake = c.awake + 1 }) c.items (omega arith) h

    all-IsTurn :
        (turns : List (Turn T)) (c : Party T)
        → AllAllowed (spec k) Stays c turns
        → AllAllowed (spec k) IsTurn c turns
    all-IsTurn [] c all = tt
    all-IsTurn (turn ∷ turns) c all =
        (Stays-IsTurn c turn all.0, all-IsTurn turns (spec k c turn).0 all.1)

    spec_run-Mixed :
        (turns : List (Turn T)) (c : Party T)
        → Mixed c
        → AllAllowed (spec k) Stays c turns
        → Mixed (spec_run (spec k) c turns).0
    unfolding spec_run
    spec_run-Mixed [] c m all = m
    spec_run-Mixed (turn ∷ turns) c m all =
        spec_run-Mixed turns (spec k c turn).0 (spec-Mixed c turn all.0) all.1

    same_state : (u v : State T × List (Reply T)) → some u ≡ some v → u.0 ≡ v.0
    same_state u v e = cc

    -- From a packet that stands for a queue and at least one peer that is awake, after any turns that the
    -- peers can take, where the last peer that is awake is not dropped: if all peers are asleep then at
    -- least one sleeps in a send and at least one in a receive.
    pub mpmc_awake_lem :
        (turns : List (Turn T)) (s s' : State T) (c : Party T) (replies : List (Reply T))
        → Stands k false s c
        → 1 ≤ c.awake
        → AllAllowed (spec k) Stays c turns
        → run step s turns ≡ some (s', replies)
        → s'.0.peers_awake ≡ 0
        → (1 ≤ s'.0.sleeping_senders) × (1 ≤ s'.0.sleeping_receivers)
    mpmc_awake_lem turns s s' c replies r up all ran nobody =
        let (t, ran', r') = mpmc_run_refines k turns s c r (all-IsTurn turns c all) in
        let at : Stands k false s' (spec_run (spec k) c turns).0 =
          subst (λ w. Stands k false w (spec_run (spec k) c turns).0)
            (same_state (t, (spec_run (spec k) c turns).1) (s', replies) (sym ran' ∙ ran)) r' in
        let (sends, recvs) =
          spec_run-Mixed turns c (λ z. absurd (omega arith)) all (sym at.awake ∙ nobody) in
        (subst (λ n. 1 ≤ n) (sym at.senders) sends, subst (λ n. 1 ≤ n) (sym at.receivers) recvs)
