-- ===== src/Spsc/OneSpace/Sends.antt =====
-- Each step of the sender keeps what the places of the two threads say of each other.
use comm.Prelude.{Bool, true, false, ◌&&◌, ◌||◌, none, some, ◌≡◌, arith}
use comm.Spsc.OneSpace.{Flags, Packet, Sender, Receiver, receiver_flags, with_flags}
use comm.Spsc.OneSpace.Phases.{Inv, shape}

module _ {ℓ} {T : Type ℓ} (p : Packet T) (r : Receiver T) (n : Bool) where
  pub storing_lem :
      (x : T)
      → Inv p Sender.idle r n
      → p.flags.receiver_disconnected ≡ false
      → p.flags.data_available ≡ false
      → Inv p (Sender.storing x) r n
  storing_lem x m c0 c1 = let h = shape r in ground arith

  pub stored_lem :
      (x : T) → Inv p (Sender.storing x) r n → Inv (record p { val = some x }) Sender.setting r n
  stored_lem x m = let h = shape r in ground arith

  pub set_lem :
      Inv p Sender.setting r n
      → Inv
          (with_flags p (record p.flags { data_available = true }))
          (Sender.looping false (record p.flags { data_available = true }))
          r
          n
  set_lem m = let h = shape r in ground arith

  pub again_lem :
      (closing : Bool) (f : Flags)
      → Inv p (Sender.looping closing f) r n
      → f.receiver_sleeping ≡ false
      → f.receiver_disconnected ≡ false
      → Inv p (Sender.looping closing p.flags) r n
  again_lem closing f m c0 c1 = let h = shape r in ground arith

  pub exit_lem :
      (closing : Bool) (f : Flags)
      → Inv p (Sender.looping closing f) r n
      → receiver_flags f && (closing || f.data_available) ≡ false
      → Inv p (Sender.notifying closing f) r n
  exit_lem closing f m c0 = let h = shape r in ground arith

  pub break_lem :
      (f : Flags)
      → Inv p (Sender.looping true f) r n
      → f.receiver_disconnected ≡ true
      → Inv p (Sender.notifying true f) r n
  break_lem f m c0 = let h = shape r in ground arith

  pub thread_lem :
      (closing : Bool) (f : Flags)
      → Inv p (Sender.looping closing f) r n
      → closing || f.data_available ≡ true
      → f.receiver_sleeping ≡ true
      → Inv (record p { receiver_thread = false }) (Sender.waking closing f) r n
  thread_lem closing f m c0 c1 = let h = shape r in ground arith

  pub back_lem :
      (f : Flags) (x : T)
      → Inv p (Sender.looping false f) r n
      → f.data_available ≡ true
      → f.receiver_disconnected ≡ true
      → Inv (record p { val = none }) (Sender.clearing x) r false
  back_lem f x m c0 c1 = let h = shape r in ground arith

  pub wake_lem :
      (closing : Bool) (f g : Flags)
      → Inv p (Sender.waking closing f) r n
      → Inv
          (with_flags p (record p.flags { receiver_sleeping = false }))
          (Sender.unparking closing g)
          r
          n
  wake_lem closing f g m = let h = shape r in ground arith

  pub unpark_lem :
      (closing : Bool) (f : Flags)
      → Inv p (Sender.unparking closing f) r n
      → Inv (record p { token = true }) (Sender.notifying closing f) r n
  unpark_lem closing f m = let h = shape r in ground arith

  pub clear_lem :
      (x : T)
      → Inv p (Sender.clearing x) r n
      → Inv (with_flags p (record p.flags { data_available = false })) Sender.idle r n
  clear_lem x m = let h = shape r in ground arith

  pub done_lem : (f : Flags) → Inv p (Sender.notifying false f) r n → Inv p Sender.idle r n
  done_lem f m = let h = shape r in ground arith

  pub gone_lem : (f : Flags) → Inv p (Sender.notifying true f) r n → Inv p Sender.gone r n
  gone_lem f m = let h = shape r in ground arith

  pub close_lem :
      Inv p Sender.idle r n
      → Inv
          (with_flags p (record p.flags { sender_disconnected = true }))
          (Sender.looping true (record p.flags { sender_disconnected = true }))
          r
          n
  close_lem m = let h = shape r in ground arith
