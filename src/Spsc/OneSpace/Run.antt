-- ===== src/Spsc/OneSpace/Run.antt =====
-- What holds of the channel of one place whichever thread has its turn when.
use comm.Prelude.{
  Bool, true, false, some, List, [], ◌∷◌, ◌++◌, ◌>>=◌, ◌≡◌, refl, sym, ◌∙◌, subst, arith, is_some,
  Error, err,
}
use comm.Spsc.OneSpace.{Packet, Sender, Receiver, System, Turn, step, run, init}
use comm.Spsc.OneSpace.Good.{Good, Goes, held}
use comm.Spsc.OneSpace.Phases.{Inv, is_nil}
use comm.Spsc.OneSpace.RecvSteps.{
  receiver_step_lem, recv_sync_call_lem, recv_async_call_lem, recv_disconnect_call_lem,
  spurious_wake_lem,
}
use comm.Spsc.OneSpace.SendSteps.{sender_step_lem, send_call_lem, disconnect_call_lem}

module _ {ℓ} {T : Type ℓ} where
  step_lem : (s : System T) (turn : Turn T) → Good s → Goes (step s turn)
  unfolding step
  step_lem s Turn.sender g = sender_step_lem s g
  step_lem s Turn.receiver g = receiver_step_lem s g
  step_lem s (Turn.send x) g = (_, refl, send_call_lem s g x)
  step_lem s Turn.sender_disconnect g = (_, refl, disconnect_call_lem s g)
  step_lem s Turn.recv_sync g = (_, refl, recv_sync_call_lem s g)
  step_lem s Turn.recv_async g = (_, refl, recv_async_call_lem s g)
  step_lem s Turn.recv_disconnect g = (_, refl, recv_disconnect_call_lem s g)
  step_lem s Turn.spurious g = (_, refl, spurious_wake_lem s g)
  step_lem s (Turn.select used) g =
      let m = g.phases in (_, refl, record { phases = ground arith; history = g.history })

  run-Good : (turns : List (Turn T)) (s : System T) → Good s → Goes (run s turns)
  unfolding run
  run-Good [] s g = (s, refl, g)
  run-Good (turn ∷ turns) s g =
      let (s', done, g') = step_lem s turn g in
      let (s'', ran, g'') = run-Good turns s' g' in (s'', rw (done, ◌>>=◌) ran, g'')

  init-Good : Good {T = T} init
  init-Good = record { phases = ground arith; history = refl }

  -- No schedule of the two threads makes an `unwrap` fail. Every message that the sender has stored has
  -- been taken out by the receiver, or taken back by the sender, or is still in its place: each exactly
  -- once, and in the order of the sends.
  pub one_space_run_lem :
      (turns : List (Turn T))
      → (s : System T) × (run init turns ≡ some s)
        × (s.stored ≡ s.taken ++ (s.returned ++ held s.packet.val))
  one_space_run_lem turns = let (s, ran, g) = run-Good turns init init-Good in (s, ran, g.history)

  reached : (turns : List (Turn T)) (s : System T) → run init turns ≡ some s → Good s
  reached turns s e =
      let (s', ran, g) = run-Good turns init init-Good in subst Good (same s' s (sym ran ∙ e)) g
    where
      same : (a b : System T) → some a ≡ some b → a ≡ b
      same a b q = cc

  -- The sender is not in a call.
  abbrev pub rests : Sender T → Bool
  rests Sender.idle = true
  rests Sender.gone = true
  rests s = false

  calm :
      (p : Packet T) (s : Sender T) (n : Bool)
      → Inv p s Receiver.parked n
      → p.token ≡ false
      → rests s ≡ true
      → (is_some p.val ≡ false) × (p.flags.sender_disconnected ≡ false)
  calm p Sender.idle n m t r = (ground arith, ground arith)
  calm p Sender.gone n m t r = (ground arith, ground arith)
  calm p (Sender.storing x) n m t r = cc
  calm p Sender.setting n m t r = cc
  calm p (Sender.looping closing f) n m t r = cc
  calm p (Sender.waking closing f) n m t r = cc
  calm p (Sender.unparking closing f) n m t r = cc
  calm p (Sender.clearing x) n m t r = cc
  calm p (Sender.notifying closing f) n m t r = cc

  -- No wake-up is lost: after any schedule, if the receiver is parked and has not been unparked, and the
  -- sender is not in a call, then there is no message and the sender has not disconnected.
  pub one_space_wake_lem :
      (turns : List (Turn T)) (s : System T)
      → run init turns ≡ some s
      → s.receiver ≡ Receiver.parked
      → s.packet.token ≡ false
      → rests s.sender ≡ true
      → (is_some s.packet.val ≡ false) × (s.packet.flags.sender_disconnected ≡ false)
  one_space_wake_lem turns s ran parked t r =
      calm s.packet s.sender (is_nil s.returned)
        (subst (λ w. Inv s.packet s.sender w (is_nil s.returned)) parked
          (reached turns s ran).phases)
        t r

  ended :
      (p : Packet T) (s : Sender T) (e : Error) (n : Bool)
      → Inv p s (Receiver.ending (err e)) n
      → (p.flags.sender_disconnected ≡ true) × (p.flags.data_available ≡ false)
  ended p s e n m = (ground arith, ground arith)

  -- After any schedule, if `recv_sync` is about to return an error then the sender has disconnected and
  -- no message is available.
  pub one_space_error_lem :
      (turns : List (Turn T)) (s : System T) (e : Error)
      → run init turns ≡ some s
      → s.receiver ≡ Receiver.ending (err e)
      → (s.packet.flags.sender_disconnected ≡ true) × (s.packet.flags.data_available ≡ false)
  one_space_error_lem turns s e ran end =
      ended s.packet s.sender e (is_nil s.returned)
        (subst (λ w. Inv s.packet s.sender w (is_nil s.returned)) end (reached turns s ran).phases)
