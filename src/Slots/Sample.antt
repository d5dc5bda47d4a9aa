-- ===== src/Slots/Sample.antt =====
-- A buffer for the tests: two nodes with a message each, and the positions about to wrap round.
use comm.Prelude.{ℕ, zero, suc, ◌+◌, ◌%◌, ◌^◌, ◌<◌, ◌≡◌, refl, some, [], ◌∷◌, get_elem?, arith}
use comm.Slots.{Slots}
use comm.Slots.IsQueue.{IsQueue, node_at}

abbrev pub two_messages : Slots ℕ
two_messages = record {
  buf = record { val = some 6; pos = 1 } ∷ record { val = some 5; pos = 0 } ∷ [];
  cap_mask = 1;
  next_write = 1;
  next_read = 18446744073709551615;
}

nodes_lem :
    (i : ℕ)
    → i < 2 ^ 1
    → get_elem? two_messages.buf ((18446744073709551615 + i) % 2 ^ 1)
      ≡ some (node_at 18446744073709551615 (5 ∷ 6 ∷ []) i)
nodes_lem zero h = refl
nodes_lem (suc zero) h = refl
nodes_lem (suc (suc i)) h = absurd (omega arith)

pub two_messages-IsQueue : IsQueue 1 two_messages (5 ∷ 6 ∷ [])
two_messages-IsQueue = record {
  two = omega arith;
  fits = omega arith;
  mask = refl;
  size = refl;
  range = omega arith;
  ends = refl;
  room = omega arith;
  nodes = nodes_lem;
}
