-- ===== src/Mpsc/Unbounded/Tests.antt =====
-- The unbounded MPSC channel with two messages, and one `Select` object that waits for the channel.
use comm.Prelude.{
  ℕ, ◌<◌, ◌≡◌, refl, ◌==◌, arith, true, false, none, some, List, [], ◌∷◌, contains_key, occurs, ok,
  err, disconnected,
}
use comm.Channel.Calls.{is_empty_err}
use comm.Channel.Peers
use comm.Channel.Peers.{
  Peers, Call, send, recv, clone_sender, drop_sender, drop_receiver, Reply, sent, received, done,
  get,
}
use comm.Nodes.Above.{above, above-IsFresh, two_nodes, two_nodes-Stores}
use comm.Select.WaitQueue.{Selects}
use comm.Select.WaitQueue.Told.{AllValid, AllTold}
use comm.Simulation.{run, spec_run}
use comm.Simulation.Blocking.{spec_block}
use comm.Mpsc.Unbounded.{Packet, State, new, drop, remove_sender, step, recv_sync}
use comm.Mpsc.Unbounded.Calls.{remove_sender_lem}
use comm.Mpsc.Unbounded.Models.{Models}
use comm.Mpsc.Unbounded.Run.{mpsc_run_refines, mpsc_recv_sync_refines, mpsc_new_lem, mpsc_drop_lem}

abbrev packet : Packet ℕ
packet = record {
  id = 8;
  ends = two_nodes;
  num_senders = 1;
  have_receiver = true;
  sleeper = record { have_sleeping = true; mutex = false; condvar = 0 };
  watch = record { used = true; queue = record { queue = 64 ∷ []; id = 8 } };
}

abbrev nobody : Selects
nobody a = none

nobody-AllValid : AllValid nobody
nobody-AllValid a s e = cc

abbrev two : Peers ℕ
two = record { items = 5 ∷ 6 ∷ []; senders = 1; receivers = 1 }

packet-Models : Models false (packet, nobody) two
packet-Models = record {
  stores = two_nodes-Stores;
  senders = refl;
  receiver = refl;
  few_senders = omega arith;
  one_receiver = omega arith;
  lock = refl;
  hint = refl;
  address = (omega arith, refl);
  valid = nobody-AllValid;
}

alive : 0 < 1
alive = omega arith

abbrev calls : List (Call ℕ)
calls = clone_sender ∷ send 7 ∷ recv ∷ drop_sender ∷ drop_sender ∷ recv ∷ recv ∷ recv ∷ []

mpsc_run_refines_example :
    (s' : State ℕ) × (run (step above) (packet, nobody) calls
      ≡ some (
        s',
        done
            ∷ sent (ok tt)
            ∷ received (ok 5)
            ∷ done
            ∷ done
            ∷ received (ok 6)
            ∷ received (ok 7)
            ∷ received (err disconnected)
            ∷ [],
      ))
    × Models false s' (record { items = []; senders = 0; receivers = 1 })
unfolding spec_run Peers.step Peers.put Peers.get
mpsc_run_refines_example =
    mpsc_run_refines above above-IsFresh calls (packet, nobody) two packet-Models
      (
        (alive, omega arith),
        (omega arith, (alive, (omega arith, (alive, (alive, (alive, (alive, tt))))))),
      )

abbrev empty_packet : Packet ℕ
empty_packet = new above

mpsc_new_lem_example :
    Models false (empty_packet, nobody) (record { items = []; senders = 1; receivers = 1 })
mpsc_new_lem_example = mpsc_new_lem above above-IsFresh nobody nobody-AllValid

abbrev waits : List (List (Call ℕ))
waits = [] ∷ (send 7 ∷ drop_sender ∷ []) ∷ []

-- The receiver finds nothing twice, and then sleeps until the sender has sent a message.
mpsc_recv_sync_refines_example :
    (s' : State ℕ) × (recv_sync above [] waits (empty_packet, nobody) ≡ some (s', some (ok 7)))
    × Models false s' (record { items = []; senders = 0; receivers = 1 })
unfolding spec_block spec_run Peers.step Peers.put Peers.get is_empty_err
mpsc_recv_sync_refines_example =
    mpsc_recv_sync_refines above above-IsFresh [] waits (empty_packet, nobody)
      (record { items = []; senders = 1; receivers = 1 })
      (mpsc_new_lem above above-IsFresh nobody nobody-AllValid)
      (tt, (tt, ((alive, (alive, tt)), tt)))

mpsc_drop_lem_example :
    (p' : Packet ℕ) × (drop 3 packet ≡ some (p', 5 ∷ 6 ∷ [], none))
    × ((w : ℕ) → contains_key w p'.ends.heap ≡ (p'.ends.read_end == w))
mpsc_drop_lem_example = mpsc_drop_lem false 3 packet nobody two packet-Models (omega arith)

remove_sender_lem_example :
    (s : State ℕ) × (remove_sender packet nobody ≡ some s)
    × Models false s (record two { senders = 0 })
    × (s.0.sleeper ≡ record { have_sleeping = true; mutex = false; condvar = 1 })
    × AllTold 8 (λ a. occurs a (64 ∷ [])) nobody s.1
remove_sender_lem_example = remove_sender_lem packet nobody two packet-Models alive
