-- ===== src/Mpmc/Bounded/Tests.antt =====
-- The bounded MPMC channel of capacity 2, with the positions about to wrap round, one message in the
-- buffer, a receiver that sleeps, and one `Select` object that waits for the channel.
use comm.Prelude.{
  ℕ, zero, suc, ◌+◌, ◌%◌, ◌^◌, ◌≡◌, refl, ap, true, false, none, some, [], ◌∷◌, ◌==◌, arith,
  get_elem?, ok, occurs,
}
use comm.Select.WaitQueue.{Selects}
use comm.Select.WaitQueue.Told.{AllValid, AllTold}
use comm.Mpmc.Bounded.{
  Packet, State, decompose_pointer, compose_pointer, send_async, recv_async, drop,
}
use comm.Mpmc.Bounded.Models.{Models, put, get, pointer_halves}
use comm.Mpmc.Bounded.Drop.{mpmc_drop_lem}
use comm.Mpmc.Bounded.Recv.{mpmc_recv_refines}
use comm.Mpmc.Bounded.Send.{mpmc_send_refines}

abbrev packet : Packet ℕ
packet = record {
  id = 8;
  buf = none ∷ some 5 ∷ [];
  cap_mask = 1;
  read_start_next_write = 4294967295;
  write_end_next_read = 18446744069414584320;
  sleeping_senders = 0;
  send_condvar = 0;
  sleeping_receivers = 1;
  recv_condvar = 0;
  sleep_mutex = false;
  peers_awake = 2;
  watch = record { used = true; queue = record { queue = 64 ∷ []; id = 8 } };
}

held :
    (i x : ℕ)
    → get_elem? (5 ∷ []) i ≡ some x
    → get_elem? packet.buf ((4294967295 + i) % 2 ^ 1) ≡ some (some x)
held zero x e = ap some e
held (suc i) x e = cc

packet-Models : Models 1 packet (5 ∷ [])
unfolding decompose_pointer
packet-Models = record {
  first = 4294967295;
  fits = omega arith;
  mask = refl;
  size = refl;
  range = omega arith;
  starts = refl;
  ends = refl;
  room = omega arith;
  holds = λ i x e. held i x e;
  hint = refl;
  address = (omega arith, refl);
}

abbrev nobody : Selects
nobody a = none

nobody-AllValid : AllValid nobody
nobody-AllValid a s e = cc

pointer_halves_example :
    (decompose_pointer (compose_pointer 3 4294967295) ≡ (3, 4294967295))
    × (compose_pointer
          (decompose_pointer 18446744069414584323).0
          (decompose_pointer 18446744069414584323).1
        ≡ 18446744069414584323)
pointer_halves_example =
    pointer_halves 3 4294967295 18446744069414584323 (omega arith) (omega arith) (omega arith)

mpmc_send_refines_example :
    (s : State ℕ) × (send_async packet nobody 7 false ≡ some (s, ok tt))
    × Models 1 s.0 (5 ∷ 7 ∷ [])
    × AllValid s.1
    × ((1 == 2) ≡ false → AllTold 8 (λ a. occurs a (64 ∷ [])) nobody s.1)
unfolding put
mpmc_send_refines_example =
    mpmc_send_refines 1 packet nobody 7 false (5 ∷ []) packet-Models refl nobody-AllValid

recv_async_test :
    (p' : Packet ℕ) × (recv_async packet false ≡ some (p', ok 5))
    × Models 1 p' []
    × (p'.watch ≡ packet.watch)
unfolding get
recv_async_test = mpmc_recv_refines 1 packet false refl (5 ∷ []) packet-Models

mpmc_drop_lem_example : (p' : Packet ℕ) × (drop packet ≡ some (p', 5 ∷ []))
mpmc_drop_lem_example = mpmc_drop_lem 1 packet (5 ∷ []) packet-Models
