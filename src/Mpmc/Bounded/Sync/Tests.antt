-- ===== src/Mpmc/Bounded/Sync/Tests.antt =====
-- Two peers of the bounded MPMC channel of capacity 2, which is empty.
use comm.Prelude.{ℕ, ◌≤◌, ◌≡◌, refl, false, none, some, List, [], ◌∷◌, arith, ok, err, deadlock}
use comm.Select.WaitQueue.{Selects}
use comm.Select.WaitQueue.Told.{AllValid}
use comm.Simulation.{run, spec_run}
use comm.Mpmc.Bounded.{Packet, State, decompose_pointer, compose_pointer}
use comm.Ring
use comm.Select.Watch
use comm.Mpmc.Bounded.Sync.{Turn, sent, received, waits, step}
use comm.Mpmc.Bounded.Sync.Awake.{mpmc_awake_lem}
use comm.Mpmc.Bounded.Sync.Counts.{Party, Stands, spec}
use comm.Mpmc.Bounded.Sync.Run.{mpmc_run_refines}

abbrev packet : Packet ℕ
packet = record {
  id = 8;
  buf = none ∷ none ∷ [];
  cap_mask = 1;
  read_start_next_write = 0;
  write_end_next_read = 0;
  sleeping_senders = 0;
  send_condvar = 0;
  sleeping_receivers = 0;
  recv_condvar = 0;
  sleep_mutex = false;
  peers_awake = 2;
  watch = record { used = false; queue = record { queue = []; id = 8 } };
}

abbrev nobody : Selects
nobody a = none

nobody-AllValid : AllValid nobody
nobody-AllValid a s e = cc

abbrev two_peers : Party ℕ
two_peers = record { items = []; awake = 2; senders = 0; receivers = 0 }

packet-Stands : Stands 1 false (packet, nobody) two_peers
unfolding decompose_pointer
packet-Stands = record {
  queue = record {
    first = 0;
    fits = omega arith;
    mask = refl;
    size = refl;
    range = omega arith;
    starts = refl;
    ends = refl;
    room = omega arith;
    holds = λ i x e. cc;
    hint = refl;
    address = (omega arith, refl);
  };
  awake = refl;
  senders = refl;
  receivers = refl;
  few = omega arith;
  lock = refl;
  valid = nobody-AllValid;
}

-- Both receive from the empty channel: the second would be the last to fall asleep.
mpmc_run_refines_example :
    (s' : State ℕ) × (run step
        (packet, nobody)
        (Turn.recv_lock ∷ Turn.recv_lock ∷ Turn.send_async 5 ∷ Turn.recv_wake ∷ [])
      ≡ some (s', waits ∷ received (err deadlock) ∷ sent (ok tt) ∷ received (ok 5) ∷ []))
    × Stands 1 false s' two_peers
unfolding spec_run spec
mpmc_run_refines_example =
    mpmc_run_refines 1 (Turn.recv_lock ∷ Turn.recv_lock ∷ Turn.send_async 5 ∷ Turn.recv_wake ∷ [])
      (packet, nobody) two_peers packet-Stands
      (omega arith, (omega arith, (omega arith, (omega arith, tt))))

-- One sleeps in a receive, the other fills the channel and then sleeps in a send.
abbrev all_sleep : List (Turn ℕ)
all_sleep = Turn.recv_lock ∷ Turn.send_async 5 ∷ Turn.send_async 6 ∷ Turn.send_lock 7 ∷ []

abbrev asleep_packet : Packet ℕ
asleep_packet = record packet {
  buf = some 5 ∷ some 6 ∷ [];
  read_start_next_write = 8589934592;
  write_end_next_read = 2;
  sleeping_senders = 1;
  sleeping_receivers = 1;
  recv_condvar = 2;
  peers_awake = 0;
}

fall_asleep :
    run step (packet, nobody) all_sleep
    ≡ some ((asleep_packet, nobody), waits ∷ sent (ok tt) ∷ sent (ok tt) ∷ waits ∷ [])
unfolding run step decompose_pointer compose_pointer Ring.write Watch.notify_wait_queue
fall_asleep = refl

mpmc_awake_lem_example :
    (1 ≤ asleep_packet.sleeping_senders) × (1 ≤ asleep_packet.sleeping_receivers)
unfolding spec
mpmc_awake_lem_example =
    mpmc_awake_lem 1 all_sleep (packet, nobody) (asleep_packet, nobody) two_peers
      (waits ∷ sent (ok tt) ∷ sent (ok tt) ∷ waits ∷ []) packet-Stands (omega arith)
      (omega arith, (omega arith, (omega arith, (omega arith, tt)))) fall_asleep refl
