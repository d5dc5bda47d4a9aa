-- ===== src/Spsc/Bounded/Tests.antt =====
-- The bounded channel of capacity 2, with the positions about to wrap round, one message in the buffer,
-- and one `Select` object that waits for the channel.
use comm.Prelude.{
  ℕ, ◌≤◌, ◌-◌, ◌*◌, leb, if◌then◌else◌, zero, suc, ap, get_elem?, ◌%◌, ◌+◌, ◌^◌, ◌≡◌, refl, true,
  false, not, none, some, List, [], ◌∷◌, arith, Result, ok, err, Error, disconnected, full,
}
use comm.Channel
use comm.Channel.{Chan}
use comm.Channel.Calls
use comm.Channel.Calls.{
  Call, send, recv, drop_sender, drop_receiver, Reply, sent, received, dropped, try_again,
  is_empty_err,
}
use comm.Select.WaitQueue.{Selects}
use comm.Select.WaitQueue.Told.{AllValid}
use comm.Spsc.Bounded.{Packet, ready}
use comm.Spsc.Bounded.Sync.{run, send_sync, recv_sync}
use comm.Spsc.Bounded.Lifetime.{new, drop, no_messages, new_lem, drop_lem}
use comm.Spsc.Bounded.Models.{Models, Keeps}
use comm.Spsc.Bounded.{recv_async}
use comm.Spsc.Bounded.Recv.{ready-recv}
use comm.Spsc.Bounded.Run.{run_refines}
use comm.Spsc.Bounded.Blocking.{Returned, send_sync_refines, recv_sync_refines}

abbrev packet : Packet ℕ
packet = record {
  id = 8;
  buf = none ∷ some 5 ∷ [];
  cap_mask = 1;
  read_pos = 18446744073709551615;
  write_pos = 0;
  have_sleeping = false;
  sleeping_mutex = false;
  sleeping_condvar = 0;
  sender_disconnected = false;
  receiver_disconnected = false;
  watch = record { used = true; queue = record { queue = 64 ∷ []; id = 8 } };
}

abbrev chan : Chan ℕ
chan = record { items = 5 ∷ []; sender_gone = false; receiver_gone = false }

packet-Models : Models 1 packet chan
packet-Models = record {
  fits = omega arith;
  mask = refl;
  size = refl;
  range = omega arith;
  write_at = refl;
  room = omega arith;
  holds = λ i x e. held i x e;
  sender = refl;
  receiver = refl;
  hint = refl;
  address = (omega arith, refl);
}
  where
    held :
        (i x : ℕ)
        → get_elem? chan.items i ≡ some x
        → get_elem? packet.buf ((packet.read_pos + i) % 2 ^ 1) ≡ some (some x)
    held zero x e = ap some e
    held (suc i) x e = cc

abbrev nobody : Selects
nobody a = none

nobody-AllValid : AllValid nobody
nobody-AllValid a s e = cc

ready-recv_example :
    (p' : Packet ℕ) × (out : Result ℕ Error) × (recv_async packet false ≡ some (p', out))
    × (ready packet ≡ not (is_empty_err out))
ready-recv_example = ready-recv packet packet-Models false refl

abbrev calls : List (Call ℕ)
calls = send 7 ∷ send 9 ∷ recv ∷ drop_sender ∷ recv ∷ recv ∷ []

abbrev replies : List (Reply ℕ)
replies =
    sent (ok tt)
    ∷ sent (err (9, full))
    ∷ received (ok 5)
    ∷ dropped
    ∷ received (ok 7)
    ∷ received (err disconnected)
    ∷ []

run_refines_example :
    (p' : Packet ℕ) × (selects' : Selects) × (run packet nobody calls
      ≡ some (p', selects', replies))
    × Models 1 p' (record { items = []; sender_gone = true; receiver_gone = false })
    × Keeps packet p'
    × AllValid selects'
unfolding Calls.run Calls.step Channel.send Channel.recv
run_refines_example = run_refines 1 calls packet nobody packet-Models nobody-AllValid refl

abbrev full_packet : Packet ℕ
full_packet = record packet { buf = some 6 ∷ some 5 ∷ []; write_pos = 1 }

abbrev full_chan : Chan ℕ
full_chan = record chan { items = 5 ∷ 6 ∷ [] }

full_packet-Models : Models 1 full_packet full_chan
full_packet-Models = record {
  fits = omega arith;
  mask = refl;
  size = refl;
  range = omega arith;
  write_at = refl;
  room = omega arith;
  holds = held;
  sender = refl;
  receiver = refl;
  hint = refl;
  address = (omega arith, refl);
}
  where
    held :
        (i x : ℕ)
        → get_elem? full_chan.items i ≡ some x
        → get_elem? full_packet.buf ((full_packet.read_pos + i) % 2 ^ 1) ≡ some (some x)
    held zero x e = ap some e
    held (suc zero) x e = ap some e
    held (suc (suc i)) x e = cc

-- The message waits until the first is taken out.
send_sync_refines_example :
    (p' : Packet ℕ) × (selects' : Selects) × (send_sync full_packet nobody 7 []
        ((recv ∷ []) ∷ [] ∷ [])
      ≡ some (p', selects', some (ok tt)))
    × Models 1 p' (record chan { items = 6 ∷ 7 ∷ [] })
    × AllValid selects'
    × Returned {R = Result (Unit {0}) (ℕ × Error)} p' (some (ok tt))
unfolding Calls.send_sync Calls.run Calls.step Channel.send Channel.recv try_again
send_sync_refines_example =
    send_sync_refines 1 full_packet nobody 7 [] ((recv ∷ []) ∷ [] ∷ []) full_packet-Models
      nobody-AllValid refl refl

recv_sync_refines_example :
    (p' : Packet ℕ) × (selects' : Selects) × (recv_sync packet nobody [] ([] ∷ [])
      ≡ some (p', selects', some (ok 5)))
    × Models 1 p' (record chan { items = [] })
    × AllValid selects'
    × Returned {R = Result ℕ Error} p' (some (ok 5))
unfolding Calls.recv_sync Calls.run Calls.step Channel.recv is_empty_err
recv_sync_refines_example =
    recv_sync_refines 1 packet nobody [] ([] ∷ []) packet-Models nobody-AllValid refl refl

new_lem_example :
    (k : ℕ) × (p : Packet ℕ) × (3 ≤ 2 ^ k)
    × ((i : ℕ) → 3 ≤ 2 ^ i → k ≤ i)
    × (new (λ size. leb size 1000) 8 3 ≡ (
        if leb (2 ^ 63 - 1) (2 ^ k * 8)
        then none
        else if leb (2 ^ k * 8) 1000
        then some p
        else none))
    × Models k p no_messages
    × (p.have_sleeping ≡ false)
    × (p.sleeping_mutex ≡ false)
new_lem_example = new_lem (λ size. leb size 1000) 8 3 (omega arith)

drop_lem_example : (p' : Packet ℕ) × (drop full_packet ≡ some (p', 5 ∷ 6 ∷ []))
drop_lem_example = drop_lem full_packet full_packet-Models
