-- ===== src/Spsc/RingBuf/Tests.antt =====
-- The overwriting channel of capacity 2, full, with the read position about to wrap round.
use comm.Prelude.{
  ℕ, zero, suc, ap, get_elem?, ◌%◌, ◌+◌, ◌^◌, ◌≡◌, refl, true, false, none, some, [], ◌∷◌, arith,
  ok,
}
use comm.Channel
use comm.Channel.{Chan}
use comm.Select.WaitQueue.{Selects}
use comm.Select.WaitQueue.Told.{AllValid}
use comm.Spsc.Bounded.{Packet}
use comm.Spsc.Bounded.Models.{Models}
use comm.Spsc.RingBuf.{recv_async, send}
use comm.Spsc.RingBuf.Room.{chan_recvs, recv_refines}
use comm.Spsc.RingBuf.Send.{chan_send, send_refines}

abbrev full_packet : Packet ℕ
full_packet = record {
  id = 8;
  buf = some 6 ∷ some 5 ∷ [];
  cap_mask = 1;
  read_pos = 18446744073709551615;
  write_pos = 1;
  have_sleeping = false;
  sleeping_mutex = false;
  sleeping_condvar = 0;
  sender_disconnected = false;
  receiver_disconnected = false;
  watch = record { used = true; queue = record { queue = 64 ∷ []; id = 8 } };
}

abbrev full_chan : Chan ℕ
full_chan = record { items = 5 ∷ 6 ∷ []; sender_gone = false; receiver_gone = false }

full_packet-Models : Models 1 full_packet full_chan
full_packet-Models = record {
  fits = omega arith;
  mask = refl;
  size = refl;
  range = omega arith;
  write_at = refl;
  room = omega arith;
  holds = held;
  sender = refl;
  receiver = refl;
  hint = refl;
  address = (omega arith, refl);
}
  where
    held :
        (i x : ℕ)
        → get_elem? full_chan.items i ≡ some x
        → get_elem? full_packet.buf ((full_packet.read_pos + i) % 2 ^ 1) ≡ some (some x)
    held zero x e = ap some e
    held (suc zero) x e = ap some e
    held (suc (suc i)) x e = cc

abbrev nobody : Selects
nobody a = none

nobody-AllValid : AllValid nobody
nobody-AllValid a s e = cc

send_refines_example :
    (p' : Packet ℕ) × (selects' : Selects) × (send full_packet nobody 7 0
      ≡ some (p', selects', [], ok (some 5)))
    × Models 1 p' (record full_chan { items = 6 ∷ 7 ∷ [] })
    × AllValid selects'
unfolding chan_send chan_recvs
send_refines_example = send_refines full_packet full_packet-Models nobody 7 0 nobody-AllValid refl

-- The receiver is faster.
raced :
    (p' : Packet ℕ) × (selects' : Selects) × (send full_packet nobody 7 1
      ≡ some (p', selects', ok 5 ∷ [], ok none))
    × Models 1 p' (record full_chan { items = 6 ∷ 7 ∷ [] })
    × AllValid selects'
unfolding chan_send chan_recvs Channel.recv
raced = send_refines full_packet full_packet-Models nobody 7 1 nobody-AllValid refl

recv_refines_example :
    (p' : Packet ℕ) × (recv_async full_packet ≡ some (p', ok 5))
    × Models 1 p' (record full_chan { items = 6 ∷ [] })
    × (p'.write_pos ≡ 1)
unfolding Channel.recv
recv_refines_example = recv_refines full_packet full_packet-Models
