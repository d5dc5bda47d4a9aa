-- ===== src/Spsc/OneSpace/Receives.antt =====
-- Each step of the receiver keeps what the places of the two threads say of each other.
use comm.Prelude.{Bool, true, false, none, ◌≡◌, arith, Result, ok, err, Error}
use comm.Spsc.OneSpace.{Flags, Packet, Sender, Receiver, with_flags}
use comm.Spsc.OneSpace.Phases.{Inv}

module _ {ℓ} {T : Type ℓ} (p : Packet T) (s : Sender T) (n : Bool) where
  pub check_lem :
      Inv p s Receiver.idle n
      → Inv
          (with_flags p (record p.flags { receiver_working = true }))
          s
          (Receiver.checked p.flags)
          n
  check_lem m = ground arith

  pub arm_lem :
      (f : Flags)
      → Inv p s (Receiver.checked f) n
      → f.data_available ≡ false
      → f.sender_disconnected ≡ false
      → Inv (record p { receiver_thread = true }) s Receiver.arming n
  arm_lem f m c0 c1 = ground arith

  pub checked_take_lem :
      (f : Flags) (x : T)
      → Inv p s (Receiver.checked f) n
      → f.data_available ≡ true
      → Inv (record p { val = none }) s (Receiver.clearing true x) n
  checked_take_lem f x m c0 = ground arith

  pub checked_end_lem :
      (f : Flags) (e : Error)
      → Inv p s (Receiver.checked f) n
      → f.data_available ≡ false
      → f.sender_disconnected ≡ true
      → Inv p s (Receiver.ending (err e)) n
  checked_end_lem f e m c0 c1 = ground arith

  pub woken_take_lem :
      (f : Flags) (x : T)
      → Inv p s (Receiver.woken f) n
      → f.data_available ≡ true
      → Inv (record p { val = none }) s (Receiver.clearing true x) n
  woken_take_lem f x m c0 = ground arith

  pub woken_end_lem :
      (f : Flags) (e : Error)
      → Inv p s (Receiver.woken f) n
      → f.data_available ≡ false
      → Inv p s (Receiver.ending (err e)) n
  woken_end_lem f e m c0 = ground arith

  pub sleep_lem :
      Inv p s Receiver.arming n
      → Inv (with_flags p (record p.flags { receiver_sleeping = true })) s Receiver.parked n
  sleep_lem m = ground arith

  pub token_lem : Inv p s Receiver.parked n → Inv (record p { token = false }) s Receiver.loading n
  token_lem m = ground arith

  pub spurious_lem : Inv p s Receiver.parked n → Inv p s Receiver.loading n
  spurious_lem m = ground arith

  pub park_again_lem :
      Inv p s Receiver.loading n → p.flags.receiver_sleeping ≡ true → Inv p s Receiver.parked n
  park_again_lem m c0 = ground arith

  pub woken_lem :
      Inv p s Receiver.loading n
      → p.flags.receiver_sleeping ≡ false
      → Inv p s (Receiver.woken p.flags) n
  woken_lem m c0 = ground arith

  pub polled_take_lem :
      (f : Flags) (x : T)
      → Inv p s (Receiver.polled f) n
      → f.data_available ≡ true
      → Inv (record p { val = none }) s (Receiver.clearing false x) n
  polled_take_lem f x m c0 = ground arith

  pub polled_end_lem : (f : Flags) → Inv p s (Receiver.polled f) n → Inv p s Receiver.idle n
  polled_end_lem f m = ground arith

  pub clear_sync_lem :
      (x : T)
      → Inv p s (Receiver.clearing true x) n
      → Inv (with_flags p (record p.flags { data_available = false })) s (Receiver.ending (ok x)) n
  clear_sync_lem x m = ground arith

  pub clear_async_lem :
      (x : T)
      → Inv p s (Receiver.clearing false x) n
      → Inv (with_flags p (record p.flags { data_available = false })) s Receiver.idle n
  clear_async_lem x m = ground arith

  pub end_lem :
      (out : Result T Error)
      → Inv p s (Receiver.ending out) n
      → Inv (with_flags p (record p.flags { receiver_working = false })) s Receiver.idle n
  end_lem out m = ground arith

  pub poll_lem : Inv p s Receiver.idle n → Inv p s (Receiver.polled p.flags) n
  poll_lem m = ground arith

  pub leave_lem :
      Inv p s Receiver.idle n
      → Inv (with_flags p (record p.flags { receiver_disconnected = true })) s Receiver.gone n
  leave_lem m = ground arith
