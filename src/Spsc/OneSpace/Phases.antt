-- ===== src/Spsc/OneSpace/Phases.antt =====
-- What the places of the two threads say of each other: the invariant of the protocol on `flags`.
use comm.Prelude.{
  Bool, true, false, not, ◌&&◌, ◌||◌, List, [], ◌∷◌, ◌≡◌, refl, arith, is_some, ok, err,
}
use comm.Spsc.OneSpace.{Flags, Packet, Sender, Receiver}

abbrev pub implies : Bool → Bool → Bool
implies a b = not a || b

module _ {ℓ} {T : Type ℓ} where
  -- The sender has stored a message and not told yet, has not stored it yet, or has taken it back.
  abbrev pub filled : Sender T → Bool
  filled Sender.setting = true
  filled s = false

  abbrev pub fresh : Sender T → Bool
  fresh (Sender.storing x) = true
  fresh Sender.setting = true
  fresh s = false

  abbrev pub took_back : Sender T → Bool
  took_back (Sender.clearing x) = true
  took_back s = false

  -- It has taken the thread, or is about to unpark it.
  abbrev pub took_thread : Sender T → Bool
  took_thread (Sender.waking closing f) = true
  took_thread s = false

  abbrev pub unparks : Sender T → Bool
  unparks (Sender.unparking closing f) = true
  unparks s = false

  abbrev pub closed : Sender T → Bool
  closed (Sender.looping closing f) = closing
  closed (Sender.waking closing f) = closing
  closed (Sender.unparking closing f) = closing
  closed (Sender.notifying closing f) = closing
  closed Sender.gone = true
  closed s = false

  -- What it counts on: that the receiver sleeps, that it has gone, or that there is a message.
  abbrev pub counts_on_sleep : Sender T → Bool
  counts_on_sleep (Sender.looping closing f) = f.receiver_sleeping
  counts_on_sleep (Sender.waking closing f) = true
  counts_on_sleep s = false

  abbrev pub counts_on_gone : Sender T → Bool
  counts_on_gone (Sender.looping closing f) = f.receiver_disconnected
  counts_on_gone (Sender.clearing x) = true
  counts_on_gone s = false

  abbrev pub counts_on_message : Sender T → Bool
  counts_on_message (Sender.looping closing f) =
      not closing && (f.data_available && (f.receiver_sleeping || f.receiver_disconnected))
  counts_on_message (Sender.waking closing f) = not closing
  counts_on_message (Sender.clearing x) = true
  counts_on_message s = false

  -- It is on its way to a receiver that waits.
  abbrev pub comes : Sender T → Bool
  comes (Sender.looping closing f) = f.receiver_working && (closing || f.data_available)
  comes (Sender.waking closing f) = true
  comes s = false

  abbrev pub working : Receiver T → Bool
  working Receiver.idle = false
  working (Receiver.polled f) = false
  working (Receiver.clearing sync x) = sync
  working Receiver.gone = false
  working r = true

  -- It is about to sleep, has stored its thread, or sleeps.
  abbrev pub poised : Receiver T → Bool
  poised (Receiver.checked f) = not f.data_available && not f.sender_disconnected
  poised Receiver.arming = true
  poised r = false

  abbrev pub armed : Receiver T → Bool
  armed Receiver.arming = true
  armed r = false

  abbrev pub asleep : Receiver T → Bool
  asleep Receiver.parked = true
  asleep Receiver.loading = true
  asleep r = false

  abbrev pub in_park : Receiver T → Bool
  in_park Receiver.parked = true
  in_park r = false

  abbrev pub took_out : Receiver T → Bool
  took_out (Receiver.clearing sync x) = true
  took_out r = false

  abbrev pub left : Receiver T → Bool
  left Receiver.gone = true
  left r = false

  -- What it counts on: a message, or that the sender has gone.
  abbrev pub wants_message : Receiver T → Bool
  wants_message (Receiver.checked f) = f.data_available
  wants_message (Receiver.woken f) = f.data_available
  wants_message (Receiver.polled f) = f.data_available
  wants_message (Receiver.clearing sync x) = true
  wants_message r = false

  abbrev pub wants_gone : Receiver T → Bool
  wants_gone (Receiver.checked f) = not f.data_available && f.sender_disconnected
  wants_gone (Receiver.woken f) = not f.data_available
  wants_gone (Receiver.ending (ok x)) = false
  wants_gone (Receiver.ending (err e)) = true
  wants_gone r = false

  abbrev pub is_nil : List T → Bool
  is_nil [] = true
  is_nil (x ∷ xs) = false

  -- What the places of the receiver exclude of one another.
  pub shape :
      (r : Receiver T)
      → implies (poised r) (working r)
          && (implies (asleep r) (working r)
              && (implies (armed r) (poised r)
                  && (implies (left r) (not (working r) && not (took_out r))
                      && (implies (poised r) (not (asleep r))
                          && (implies (took_out r) (not (asleep r) && not (poised r))
                              && implies (in_park r) (asleep r))))))
        ≡ true
  shape Receiver.idle = refl
  shape (Receiver.checked f) = ground arith
  shape Receiver.arming = refl
  shape Receiver.parked = refl
  shape Receiver.loading = refl
  shape (Receiver.woken f) = refl
  shape (Receiver.polled f) = refl
  shape (Receiver.clearing sync x) = refl
  shape (Receiver.ending (ok x)) = refl
  shape (Receiver.ending (err e)) = refl
  shape Receiver.gone = refl

  -- The receiver waits for the sender to wake it up.
  abbrev pub waits : Receiver T → Flags → Bool
  waits r f = poised r || (asleep r && f.receiver_sleeping)

  pub record Inv (p : Packet T) (s : Sender T) (r : Receiver T) (nothing_returned : Bool)
      : Type 0 where
    pub is_working : p.flags.receiver_working ≡ working r
    pub is_left : p.flags.receiver_disconnected ≡ left r
    pub is_closed : p.flags.sender_disconnected ≡ closed s
    pub place :
        is_some p.val
        ≡ (p.flags.data_available && (not (took_out r) && not (took_back s))) || filled s
    pub unset : fresh s && p.flags.data_available ≡ false
    pub thread : p.receiver_thread ≡ (p.flags.receiver_sleeping && not (took_thread s)) || armed r
    pub sleeps : implies p.flags.receiver_sleeping (asleep r) ≡ true
    pub sender_sleep : implies (counts_on_sleep s) p.flags.receiver_sleeping ≡ true
    pub sender_gone : implies (counts_on_gone s) (left r) ≡ true
    pub sender_message : implies (counts_on_message s) p.flags.data_available ≡ true
    pub receiver_message : implies (wants_message r) p.flags.data_available ≡ true
    pub receiver_gone : implies (wants_gone r) (closed s) ≡ true
    pub nothing_left : implies (wants_gone r) (not p.flags.data_available) ≡ true
    pub woke :
        implies (asleep r && not p.flags.receiver_sleeping) (p.flags.data_available || closed s)
        ≡ true
    pub not_lost :
        implies (waits r p.flags && (p.flags.data_available || closed s)) (comes s) ≡ true
    pub park :
        implies (in_park r && (not p.token && not p.flags.receiver_sleeping)) (unparks s) ≡ true
    pub back : nothing_returned || left r ≡ true
