-- ===== src/Spmc/Unbounded/Tests.antt =====
-- The unbounded SPMC channel with two messages, and one `Select` object that waits for the channel.
use comm.Prelude.{
  ℕ, ◌<◌, ◌≡◌, refl, ◌==◌, arith, true, false, none, some, List, [], ◌∷◌, contains_key, occurs, ok,
  err, disconnected,
}
use comm.Channel.Calls.{is_empty_err}
use comm.Channel.Peers
use comm.Channel.Peers.{
  Peers, Call, send, recv, drop_sender, clone_receiver, drop_receiver, Reply, sent, received, done,
  get,
}
use comm.Nodes.Above.{above, above-IsFresh, two_nodes, two_nodes-Stores}
use comm.Select.WaitQueue.{Selects}
use comm.Select.WaitQueue.Told.{AllValid, AllTold}
use comm.Simulation.{run, spec_run}
use comm.Simulation.Blocking.{spec_block}
use comm.Spmc.Unbounded.{Packet, State, new, drop, remove_sender, step, recv_sync}
use comm.Spmc.Unbounded.Calls.{remove_sender_lem}
use comm.Spmc.Unbounded.Models.{Models}
use comm.Spmc.Unbounded.Run.{spmc_run_refines, spmc_recv_sync_refines, spmc_new_lem, spmc_drop_lem}

abbrev packet : Packet ℕ
packet = record {
  id = 8;
  ends = two_nodes;
  num_queued = 2;
  num_receivers = 1;
  have_sender = true;
  sleepers = record { num_sleeping = 1; mutex = false; ones = 0; alls = 0 };
  watch = record { used = true; queue = record { queue = 64 ∷ []; id = 8 } };
}

abbrev nobody : Selects
nobody a = none

nobody-AllValid : AllValid nobody
nobody-AllValid a s e = cc

abbrev two : Peers ℕ
two = record { items = 5 ∷ 6 ∷ []; senders = 1; receivers = 1 }

packet-Models : Models false (packet, nobody) two
packet-Models = record {
  stores = two_nodes-Stores;
  queued = refl;
  room = omega arith;
  sender = refl;
  receivers = refl;
  one_sender = omega arith;
  few_receivers = omega arith;
  lock = refl;
  hint = refl;
  address = (omega arith, refl);
  valid = nobody-AllValid;
}

alive : 0 < 1
alive = omega arith

abbrev calls : List (Call ℕ)
calls = clone_receiver ∷ send 7 ∷ recv ∷ drop_receiver ∷ drop_sender ∷ recv ∷ recv ∷ recv ∷ []

spmc_run_refines_example :
    (s' : State ℕ) × (run (step above) (packet, nobody) calls
      ≡ some (
        s',
        done
            ∷ sent (ok tt)
            ∷ received (ok 5)
            ∷ done
            ∷ done
            ∷ received (ok 6)
            ∷ received (ok 7)
            ∷ received (err disconnected)
            ∷ [],
      ))
    × Models false s' (record { items = []; senders = 0; receivers = 1 })
unfolding spec_run Peers.step Peers.put Peers.get
spmc_run_refines_example =
    spmc_run_refines above above-IsFresh calls (packet, nobody) two packet-Models
      (
        (alive, omega arith),
        (
          (alive, omega arith),
          (omega arith, (omega arith, (alive, (alive, (alive, (alive, tt)))))),
        ),
      )

abbrev empty_packet : Packet ℕ
empty_packet = new above

spmc_new_lem_example :
    Models false (empty_packet, nobody) (record { items = []; senders = 1; receivers = 1 })
spmc_new_lem_example = spmc_new_lem above above-IsFresh nobody nobody-AllValid

abbrev waits : List (List (Call ℕ))
waits = [] ∷ (send 7 ∷ drop_sender ∷ []) ∷ []

-- The receiver finds nothing twice, and then sleeps until the sender has sent a message.
spmc_recv_sync_refines_example :
    (s' : State ℕ) × (recv_sync above [] waits (empty_packet, nobody) ≡ some (s', some (ok 7)))
    × Models false s' (record { items = []; senders = 0; receivers = 1 })
unfolding spec_block spec_run Peers.step Peers.put Peers.get is_empty_err
spmc_recv_sync_refines_example =
    spmc_recv_sync_refines above above-IsFresh [] waits (empty_packet, nobody)
      (record { items = []; senders = 1; receivers = 1 })
      (spmc_new_lem above above-IsFresh nobody nobody-AllValid)
      (tt, (tt, (((alive, omega arith), (alive, tt)), tt)))

spmc_drop_lem_example :
    (p' : Packet ℕ) × (drop 3 packet ≡ some (p', 5 ∷ 6 ∷ [], none))
    × ((w : ℕ) → contains_key w p'.ends.heap ≡ (p'.ends.read_end == w))
spmc_drop_lem_example = spmc_drop_lem false 3 packet nobody two packet-Models (omega arith)

remove_sender_lem_example :
    (s : State ℕ) × (remove_sender packet nobody ≡ some s)
    × Models false s (record two { senders = 0 })
    × (s.0.sleepers ≡ record { num_sleeping = 1; mutex = false; ones = 0; alls = 1 })
    × AllTold 8 (λ a. occurs a (64 ∷ [])) nobody s.1
remove_sender_lem_example = remove_sender_lem packet nobody two packet-Models
