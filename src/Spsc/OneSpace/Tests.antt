-- ===== src/Spsc/OneSpace/Tests.antt =====
-- Schedules of the channel of one place: a receiver that goes to sleep while the sender stores a message,
-- and one that the sender leaves.
use comm.Prelude.{
  true, false, none, some, List, [], ◌∷◌, ◌++◌, ◌≡◌, refl, ℕ, is_some, disconnected, err,
}
use comm.Spsc.OneSpace.{Sender, Receiver, System, Turn, step, run, init}
use comm.Spsc.OneSpace.Good.{held}
use comm.Spsc.OneSpace.Run.{one_space_run_lem, one_space_wake_lem, one_space_error_lem}

abbrev sleep : List (Turn ℕ)
sleep = Turn.recv_sync ∷ Turn.receiver ∷ Turn.receiver ∷ []

abbrev send_and_wake : List (Turn ℕ)
send_and_wake =
    Turn.send 7
    ∷ Turn.sender
    ∷ Turn.sender
    ∷ Turn.sender
    ∷ Turn.sender
    ∷ Turn.sender
    ∷ Turn.sender
    ∷ Turn.receiver
    ∷ Turn.receiver
    ∷ Turn.receiver
    ∷ []

one_space_run_lem_example :
    (s : System ℕ) × (run init (sleep ++ send_and_wake) ≡ some s)
    × (s.stored ≡ s.taken ++ (s.returned ++ held s.packet.val))
one_space_run_lem_example = one_space_run_lem (sleep ++ send_and_wake)

-- The message has come out.
woken_up :
    (s : System ℕ) × (run init (sleep ++ send_and_wake) ≡ some s)
    × (s.taken ≡ 7 ∷ [])
    × (s.receiver ≡ Receiver.clearing true 7)
unfolding run step
woken_up = (_, refl, refl, refl)

abbrev asleep_system : System ℕ
asleep_system = record init {
  packet = record {
    flags = record {
      sender_disconnected = false;
      data_available = false;
      receiver_working = true;
      receiver_sleeping = true;
      receiver_disconnected = false;
      wait_queue_used = false;
    };
    receiver_thread = true;
    val = none;
    token = false;
  };
  receiver = Receiver.parked;
}

falls_asleep : run init sleep ≡ some asleep_system
unfolding run step
falls_asleep = refl

one_space_wake_lem_example :
    (is_some asleep_system.packet.val ≡ false)
    × (asleep_system.packet.flags.sender_disconnected ≡ false)
one_space_wake_lem_example = one_space_wake_lem sleep asleep_system falls_asleep refl refl refl

abbrev end : List (Turn ℕ)
end = Turn.sender_disconnect ∷ Turn.recv_sync ∷ Turn.receiver ∷ []

abbrev ended_system : System ℕ
ended_system = record init {
  packet = record {
    flags = record {
      sender_disconnected = true;
      data_available = false;
      receiver_working = true;
      receiver_sleeping = false;
      receiver_disconnected = false;
      wait_queue_used = false;
    };
    receiver_thread = false;
    val = none;
    token = false;
  };
  sender = Sender.looping true (record {
    sender_disconnected = true;
    data_available = false;
    receiver_working = false;
    receiver_sleeping = false;
    receiver_disconnected = false;
    wait_queue_used = false;
  });
  receiver = Receiver.ending (err disconnected);
}

ends : run init end ≡ some ended_system
unfolding run step
ends = refl

one_space_error_lem_example :
    (ended_system.packet.flags.sender_disconnected ≡ true)
    × (ended_system.packet.flags.data_available ≡ false)
one_space_error_lem_example = one_space_error_lem end ended_system disconnected ends refl
