-- ===== src/Spsc/OneSpace.antt =====
-- src/spsc/one_space/imp.rs: the channel of one place between one sender and one receiver, in steps of one
-- atomic operation each. Both threads run at once; a schedule says whose turn it is.
-- `none` is a fault: an `unwrap` of nothing.
pub mod Phases
pub mod Sends
pub mod Receives
pub mod Good
pub mod SendSteps
pub mod RecvSteps
pub mod Run
mod Tests
use comm.Prelude.{
  Bool, true, false, not, ◌&&◌, ◌||◌, Option, none, some, List, [], ◌∷◌, ◌++◌, ◌>>=◌, if◌then◌else◌,
  Result, ok, err, Error, disconnected, full, empty, ℕ, ◌+◌,
}

-- The word `flags`, one field for each of its bits.
pub record Flags : Type 0 where
  pub sender_disconnected : Bool
  pub data_available : Bool
  pub receiver_working : Bool
  pub receiver_sleeping : Bool
  pub receiver_disconnected : Bool
  pub wait_queue_used : Bool

-- `flags & RECEIVER_FLAGS != 0`
abbrev pub receiver_flags : Flags → Bool
receiver_flags f = f.receiver_working || (f.receiver_sleeping || f.receiver_disconnected)

-- What both threads share. `receiver_thread` says whether a thread is there, and `token` whether the
-- receiver has been unparked since it last parked.
pub record Packet {ℓ} (T : Type ℓ) : Type ℓ where
  pub flags : Flags
  pub receiver_thread : Bool
  pub val : Option T
  pub token : Bool

-- Where the sender stands: what it does next. `closing` tells `sender_disconnect` from `send`; the flags
-- are those that it has last read.
pub data Sender {ℓ} (T : Type ℓ) : Type ℓ where
  idle : Sender T
  storing : T → Sender T
  setting : Sender T
  looping : (closing : Bool) → Flags → Sender T
  waking : (closing : Bool) → Flags → Sender T
  unparking : (closing : Bool) → Flags → Sender T
  clearing : T → Sender T
  notifying : (closing : Bool) → Flags → Sender T
  gone : Sender T

-- Where the receiver stands. `sync` tells `recv_sync` from `recv_async`.
pub data Receiver {ℓ} (T : Type ℓ) : Type ℓ where
  idle : Receiver T
  checked : Flags → Receiver T
  arming : Receiver T
  parked : Receiver T
  loading : Receiver T
  woken : Flags → Receiver T
  polled : Flags → Receiver T
  clearing : (sync : Bool) → T → Receiver T
  ending : Result T Error → Receiver T
  gone : Receiver T

-- The messages that were stored, that the receiver took, and that the sender took back; what `send` and
-- the receives last returned; and how often the sender has called `notify` of the wait queue.
pub record System {ℓ} (T : Type ℓ) : Type ℓ where
  pub packet : Packet T
  pub sender : Sender T
  pub receiver : Receiver T
  pub stored : List T
  pub taken : List T
  pub returned : List T
  pub sent : Option (Result (Unit {0}) (T × Error))
  pub received : Option (Result T Error)
  pub notified : ℕ

-- A turn is a step of the one or the other thread in its call, a call that a thread makes when it is not
-- in one, a return of `park` without a token, or a change of `wait_queue_used` by a `Select` object.
pub data Turn {ℓ} (T : Type ℓ) : Type ℓ where
  sender : Turn T
  receiver : Turn T
  send : T → Turn T
  sender_disconnect : Turn T
  recv_sync : Turn T
  recv_async : Turn T
  recv_disconnect : Turn T
  spurious : Turn T
  select : Bool → Turn T

module _ {ℓ} {T : Type ℓ} where
  abbrev pub with_flags : Packet T → Flags → Packet T
  with_flags p f = record p { flags = f }

  abbrev pub new : Packet T
  new = record {
    flags = record {
      sender_disconnected = false;
      data_available = false;
      receiver_working = false;
      receiver_sleeping = false;
      receiver_disconnected = false;
      wait_queue_used = false;
    };
    receiver_thread = false;
    val = none;
    token = false;
  }

  -- `receiver_thread.take().unwrap()`
  unfoldable pub take_thread : System T → (closing : Bool) → Flags → Option (System T)
  take_thread s closing f =
      if s.packet.receiver_thread
      then some (record s {
        packet = record s.packet { receiver_thread = false };
        sender = Sender.waking closing f;
      })
      else none

  -- `data.take().unwrap()` of the sender, which finds that the receiver has gone.
  unfoldable pub take_back : System T → Option (System T)
  take_back s = s.packet.val >>= λ x. some (record s {
    packet = record s.packet { val = none };
    sender = Sender.clearing x;
    returned = s.returned ++ (x ∷ []);
  })

  -- One round of the loop of `send`, or of that of `sender_disconnect`.
  unfoldable pub loop_step : System T → (closing : Bool) → Flags → Option (System T)
  unfolding take_thread take_back
  loop_step s closing f =
      if receiver_flags f && (closing || f.data_available)
      then (if f.receiver_sleeping
          then take_thread s closing f
          else if f.receiver_disconnected
          then (if closing
              then some (record s { sender = Sender.notifying closing f })
              else take_back s)
          else some (record s { sender = Sender.looping closing s.packet.flags }))
      else some (record s { sender = Sender.notifying closing f })

  unfoldable pub sender_step : System T → Sender T → Option (System T)
  unfolding loop_step
  sender_step s Sender.idle = some s
  sender_step s (Sender.storing x) = some (record s {
    packet = record s.packet { val = some x };
    sender = Sender.setting;
    stored = s.stored ++ (x ∷ []);
  })
  sender_step s Sender.setting =
      let f : Flags = record s.packet.flags { data_available = true } in
      some (record s { packet = with_flags s.packet f; sender = Sender.looping false f })
  sender_step s (Sender.looping closing f) = loop_step s closing f
  sender_step s (Sender.waking closing f) = some (record s {
    packet = with_flags s.packet (record s.packet.flags { receiver_sleeping = false });
    sender = Sender.unparking closing (if closing then f else s.packet.flags);
  })
  sender_step s (Sender.unparking closing f) =
      some (record s {
        packet = record s.packet { token = true };
        sender = Sender.notifying closing f;
      })
  sender_step s (Sender.clearing x) = some (record s {
    packet = with_flags s.packet (record s.packet.flags { data_available = false });
    sender = Sender.idle;
    sent = some (err (x, disconnected));
  })
  sender_step s (Sender.notifying closing f) = some (record s {
    sender = if closing then Sender.gone else Sender.idle;
    sent = if closing then s.sent else some (ok tt);
    notified = if f.wait_queue_used then s.notified + 1 else s.notified;
  })
  sender_step s Sender.gone = some s

  -- `data.take().unwrap()` of the receiver.
  unfoldable pub take_out : System T → (sync : Bool) → Option (System T)
  take_out s sync = s.packet.val >>= λ x. some (record s {
    packet = record s.packet { val = none };
    receiver = Receiver.clearing sync x;
    taken = s.taken ++ (x ∷ []);
  })

  -- The end of `recv_sync`, with the flags that were read last.
  unfoldable pub finish : System T → Flags → Option (System T)
  unfolding take_out
  finish s f =
      if f.data_available
      then take_out s true
      else some (record s { receiver = Receiver.ending (err disconnected) })

  unfoldable pub receiver_step : System T → Receiver T → Option (System T)
  unfolding take_out finish
  receiver_step s Receiver.idle = some s
  receiver_step s (Receiver.checked f) =
      if not f.data_available && not f.sender_disconnected
      then some (record s {
        packet = record s.packet { receiver_thread = true };
        receiver = Receiver.arming;
      })
      else finish s f
  receiver_step s Receiver.arming = some (record s {
    packet = with_flags s.packet (record s.packet.flags { receiver_sleeping = true });
    receiver = Receiver.parked;
  })
  receiver_step s Receiver.parked =
      if s.packet.token
      then some
          (record s { packet = record s.packet { token = false }; receiver = Receiver.loading })
      else some s
  receiver_step s Receiver.loading = some (record s {
    receiver =
        if s.packet.flags.receiver_sleeping then Receiver.parked else Receiver.woken s.packet.flags;
  })
  receiver_step s (Receiver.woken f) = finish s f
  receiver_step s (Receiver.polled f) =
      if f.data_available
      then take_out s false
      else some (record s {
        receiver = Receiver.idle;
        received = some (err (if f.sender_disconnected then disconnected else empty));
      })
  receiver_step s (Receiver.clearing sync x) = some (record s {
    packet = with_flags s.packet (record s.packet.flags { data_available = false });
    receiver = if sync then Receiver.ending (ok x) else Receiver.idle;
    received = if sync then s.received else some (ok x);
  })
  receiver_step s (Receiver.ending out) = some (record s {
    packet = with_flags s.packet (record s.packet.flags { receiver_working = false });
    receiver = Receiver.idle;
    received = some out;
  })
  receiver_step s Receiver.gone = some s

  -- The first step of a call of the sender.
  unfoldable pub send_call : System T → T → Sender T → System T
  send_call s x Sender.idle =
      if s.packet.flags.receiver_disconnected
      then record s { sent = some (err (x, disconnected)) }
      else if s.packet.flags.data_available
      then record s { sent = some (err (x, full)) }
      else record s { sender = Sender.storing x }
  send_call s x other = s

  unfoldable pub disconnect_call : System T → Sender T → System T
  disconnect_call s Sender.idle =
      let f : Flags = record s.packet.flags { sender_disconnected = true } in
      record s { packet = with_flags s.packet f; sender = Sender.looping true f }
  disconnect_call s other = s

  -- The first step of a call of the receiver, and all of `recv_disconnect`.
  unfoldable pub recv_sync_call : System T → Receiver T → System T
  recv_sync_call s Receiver.idle = record s {
    packet = with_flags s.packet (record s.packet.flags { receiver_working = true });
    receiver = Receiver.checked s.packet.flags;
  }
  recv_sync_call s other = s

  unfoldable pub recv_async_call : System T → Receiver T → System T
  recv_async_call s Receiver.idle = record s { receiver = Receiver.polled s.packet.flags }
  recv_async_call s other = s

  unfoldable pub recv_disconnect_call : System T → Receiver T → System T
  recv_disconnect_call s Receiver.idle = record s {
    packet = with_flags s.packet (record s.packet.flags { receiver_disconnected = true });
    receiver = Receiver.gone;
  }
  recv_disconnect_call s other = s

  unfoldable pub spurious_wake : System T → Receiver T → System T
  spurious_wake s Receiver.parked = record s { receiver = Receiver.loading }
  spurious_wake s other = s

  unfoldable pub step : System T → Turn T → Option (System T)
  unfolding sender_step receiver_step send_call disconnect_call recv_sync_call recv_async_call
      recv_disconnect_call spurious_wake
  step s Turn.sender = sender_step s s.sender
  step s Turn.receiver = receiver_step s s.receiver
  step s (Turn.send x) = some (send_call s x s.sender)
  step s Turn.sender_disconnect = some (disconnect_call s s.sender)
  step s Turn.recv_sync = some (recv_sync_call s s.receiver)
  step s Turn.recv_async = some (recv_async_call s s.receiver)
  step s Turn.recv_disconnect = some (recv_disconnect_call s s.receiver)
  step s Turn.spurious = some (spurious_wake s s.receiver)
  step s (Turn.select used) =
      some (record s {
        packet = with_flags s.packet (record s.packet.flags { wait_queue_used = used });
      })

  abbrev pub init : System T
  init = record {
    packet = new;
    sender = Sender.idle;
    receiver = Receiver.idle;
    stored = [];
    taken = [];
    returned = [];
    sent = none;
    received = none;
    notified = 0;
  }

  unfoldable pub run : System T → List (Turn T) → Option (System T)
  unfolding step
  run s [] = some s
  run s (turn ∷ turns) = step s turn >>= λ s'. run s' turns
