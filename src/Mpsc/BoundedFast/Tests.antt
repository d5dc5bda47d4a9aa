-- ===== src/Mpsc/BoundedFast/Tests.antt =====
-- The fast bounded MPSC channel of capacity 2, which is full, a sender that sleeps, and one `Select`
-- object that waits for the channel.
use comm.Prelude.{
  ◌≤◌, ◌^◌, Option, leb, if◌then◌else◌, ◌>>=◌, ℕ, ◌<◌, ◌≡◌, refl, arith, true, false, none, some,
  List, [], ◌∷◌, ok, err, disconnected, full,
}
use comm.Channel.Calls.{is_empty_err}
use comm.Channel.Peers
use comm.Channel.Peers.{
  Peers, Call, send, recv, clone_sender, drop_sender, drop_receiver, sent, received, done,
}
use comm.Select.WaitQueue.{Selects}
use comm.Select.WaitQueue.Told.{AllValid}
use comm.Simulation.{run, spec_run}
use comm.Simulation.Blocking.{spec_block}
use comm.Slots.Sample.{two_messages, two_messages-IsQueue}
use comm.Prelude.Powers.{saturating_size}
use comm.Mpsc.BoundedFast.Start.{no_messages, mpsc_fast_new_lem}
use comm.Mpsc.BoundedFast.{new, Packet, State, step, recv_sync, send_sync, drop}
use comm.Mpsc.BoundedFast.Models.{Models}
use comm.Mpsc.BoundedFast.Run.{
  mpsc_fast_run_refines, mpsc_fast_recv_sync_refines, mpsc_fast_send_sync_refines,
  mpsc_fast_drop_lem,
}

abbrev packet : Packet ℕ
packet = record {
  id = 8;
  slots = two_messages;
  have_sleeping_receiver = false;
  recv_condvar = 0;
  sleeping_senders = 1;
  send_condvar = 0;
  send_condvar_all = 0;
  receiver_disconnected = false;
  num_senders = 1;
  sleep_mutex = false;
  watch = record { used = true; queue = record { queue = 64 ∷ []; id = 8 } };
}

abbrev nobody : Selects
nobody a = none

nobody-AllValid : AllValid nobody
nobody-AllValid a s e = cc

abbrev two : Peers ℕ
two = record { items = 5 ∷ 6 ∷ []; senders = 1; receivers = 1 }

packet-Models : Models 1 false (packet, nobody) two
packet-Models = record {
  queue = two_messages-IsQueue;
  senders = refl;
  receiver = refl;
  few_senders = omega arith;
  one_receiver = omega arith;
  lock = refl;
  hint = refl;
  address = (omega arith, refl);
  valid = nobody-AllValid;
}

alive : 0 < 1
alive = omega arith

abbrev calls : List (Call ℕ)
calls = clone_sender ∷ send 9 ∷ recv ∷ send 7 ∷ drop_sender ∷ drop_sender ∷ recv ∷ recv ∷ recv ∷ []

mpsc_fast_run_refines_example :
    (s' : State ℕ) × (run step (packet, nobody) calls
      ≡ some (
        s',
        done
            ∷ sent (err (9, full))
            ∷ received (ok 5)
            ∷ sent (ok tt)
            ∷ done
            ∷ done
            ∷ received (ok 6)
            ∷ received (ok 7)
            ∷ received (err disconnected)
            ∷ [],
      ))
    × Models 1 false s' (record { items = []; senders = 0; receivers = 1 })
unfolding spec_run Peers.step Peers.put Peers.get
mpsc_fast_run_refines_example =
    mpsc_fast_run_refines 1 calls (packet, nobody) two packet-Models
      (
        (alive, omega arith),
        (
          omega arith,
          (alive, (omega arith, (omega arith, (alive, (alive, (alive, (alive, tt))))))),
        ),
      )

recv_sync_test :
    (s' : State ℕ) × (recv_sync [] ((send 7 ∷ []) ∷ []) (packet, nobody) ≡ some (s', some (ok 5)))
    × Models 1 false s' (record { items = 6 ∷ []; senders = 1; receivers = 1 })
unfolding spec_block spec_run Peers.step Peers.put Peers.get is_empty_err
recv_sync_test =
    mpsc_fast_recv_sync_refines 1 [] ((send 7 ∷ []) ∷ []) (packet, nobody) two packet-Models
      (tt, ((alive, tt), tt))

-- The sender finds no place twice, and sleeps until a receive makes one.
mpsc_fast_send_sync_refines_example :
    (s' : State ℕ) × (send_sync 9 [] ((recv ∷ []) ∷ []) (packet, nobody) ≡ some (s', some (ok tt)))
    × Models 1 false s' (record { items = 6 ∷ 9 ∷ []; senders = 1; receivers = 1 })
unfolding spec_block spec_run Peers.step Peers.put Peers.get
mpsc_fast_send_sync_refines_example =
    mpsc_fast_send_sync_refines 1 9 [] ((recv ∷ []) ∷ []) (packet, nobody) two packet-Models
      (tt, ((alive, tt), tt))

drop_test :
    (p' : Packet ℕ) × (drop 3 packet ≡ some (p', 5 ∷ 6 ∷ []))
    × Models 1 false (p', nobody) (record two { items = [] })
drop_test = mpsc_fast_drop_lem 1 3 packet nobody two packet-Models (omega arith)

-- A heap that gives up to a thousand bytes, full of sevens.
abbrev small_heap : ℕ → Option (ℕ → ℕ)
small_heap size = if leb size 1000 then some (λ i. 7) else none

mpsc_fast_new_lem_example :
    (k : ℕ) × (made : (ℕ → ℕ) → Packet ℕ) × (1 ≤ k)
    × (3 ≤ 2 ^ k)
    × ((i : ℕ) → 1 ≤ i → 3 ≤ 2 ^ i → k ≤ i)
    × (new small_heap 16 3
        ≡ (small_heap (saturating_size (2 ^ k) 16) >>= λ words. some (made words)))
    × ((words : ℕ → ℕ) → Models k false (made words, nobody) no_messages)
mpsc_fast_new_lem_example = mpsc_fast_new_lem nobody nobody-AllValid small_heap 16 3 (omega arith)
