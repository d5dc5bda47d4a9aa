-- ===== src/Spsc/OneSpace/SendSteps.antt =====
-- Every step of the sender goes on without a fault and keeps the messages.
use comm.Prelude.{
  ◌+◌, ok, Bool, true, false, ◌&&◌, ◌||◌, some, ◌≡◌, refl, sym, ◌∙◌, subst, arith, Bool-cases, inl,
  inr, if_true, if_false, if◌then◌else◌,
}
use comm.Spsc.OneSpace.{
  disconnect_call, send_call, Flags, Sender, System, receiver_flags, loop_step, sender_step,
  take_back,
}
use comm.Spsc.OneSpace.Good.{Good, Goes, take_thread_lem, take_back_lem, store_history}
use comm.Spsc.OneSpace.Phases.{Inv, is_nil}
use comm.Spsc.OneSpace.Sends

module _ {ℓ} {T : Type ℓ} (s : System T) (g : Good s) where
  abbrev n : Bool
  n = is_nil s.returned

  break_step :
      (closing : Bool) (f : Flags)
      → Inv s.packet (Sender.looping closing f) s.receiver n
      → closing || f.data_available ≡ true
      → f.receiver_disconnected ≡ true
      → Goes
          (if closing then some (record s { sender = Sender.notifying closing f }) else take_back s)
  break_step true f m test rd = (
    record s { sender = Sender.notifying true f },
    refl,
    record { phases = Sends.break_lem s.packet s.receiver n f m rd; history = g.history },
  )
  break_step false f m test rd = take_back_lem s g f m test rd

  loop_step_lem :
      (closing : Bool) (f : Flags)
      → Inv s.packet (Sender.looping closing f) s.receiver n
      → Goes (loop_step s closing f)
  unfolding loop_step
  loop_step_lem closing f m =
      elim (Bool-cases (receiver_flags f && (closing || f.data_available))) [
        | inr stop ↦ (
          record s { sender = Sender.notifying closing f },
          if_false _ _ stop,
          record {
            phases = Sends.exit_lem s.packet s.receiver n closing f m stop;
            history = g.history;
          },
        )
        | inl go ↦
            let test : closing || f.data_available ≡ true = ground arith in
            elim (Bool-cases f.receiver_sleeping) [
              | inl sl ↦
                  let (s', done, good) = take_thread_lem s g closing f m test sl in
                  (s', if_true _ _ go ∙ if_true _ _ sl ∙ done, good)
              | inr awake ↦ elim (Bool-cases f.receiver_disconnected) [
                | inl rd ↦
                    let (s', done, good) = break_step closing f m test rd in
                    (s', if_true _ _ go ∙ if_false _ _ awake ∙ if_true _ _ rd ∙ done, good)
                | inr here ↦ (
                  record s { sender = Sender.looping closing s.packet.flags },
                  if_true _ _ go ∙ if_false _ _ awake ∙ if_false _ _ here,
                  record {
                    phases = Sends.again_lem s.packet s.receiver n closing f m awake here;
                    history = g.history;
                  },
                )
              ]
            ]
      ]

  abbrev notified : Bool → Flags → System T
  notified closing f = record s {
    sender = if closing then Sender.gone else Sender.idle;
    sent = if closing then s.sent else some (ok tt);
    notified = if f.wait_queue_used then s.notified + 1 else s.notified;
  }

  notify_step :
      (closing : Bool) (f : Flags)
      → Inv s.packet (Sender.notifying closing f) s.receiver n
      → Good (notified closing f)
  notify_step true f m = record {
    phases = Sends.gone_lem s.packet s.receiver n f m;
    history = g.history;
  }
  notify_step false f m = record {
    phases = Sends.done_lem s.packet s.receiver n f m;
    history = g.history;
  }

  sender_cases : (pc : Sender T) → Inv s.packet pc s.receiver n → Goes (sender_step s pc)
  unfolding sender_step
  sender_cases Sender.idle m = (s, refl, g)
  sender_cases (Sender.storing x) m = (
    _,
    refl,
    record {
      phases = Sends.stored_lem s.packet s.receiver n x m;
      history = store_history s.stored s.taken s.returned s.packet.val x (ground arith) g.history;
    },
  )
  sender_cases Sender.setting m =
      (_, refl, record { phases = Sends.set_lem s.packet s.receiver n m; history = g.history })
  sender_cases (Sender.looping closing f) m = loop_step_lem closing f m
  sender_cases (Sender.waking closing f) m = (
    _,
    refl,
    record {
      phases =
          Sends.wake_lem s.packet s.receiver n closing f (if closing then f else s.packet.flags) m;
      history = g.history;
    },
  )
  sender_cases (Sender.unparking closing f) m = (
    _,
    refl,
    record { phases = Sends.unpark_lem s.packet s.receiver n closing f m; history = g.history },
  )
  sender_cases (Sender.clearing x) m =
      (_, refl, record { phases = Sends.clear_lem s.packet s.receiver n x m; history = g.history })
  sender_cases (Sender.notifying closing f) m = (_, refl, notify_step closing f m)
  sender_cases Sender.gone m = (s, refl, g)

  pub sender_step_lem : Goes (sender_step s s.sender)
  sender_step_lem = sender_cases s.sender g.phases

  send_cases : (pc : Sender T) (x : T) → Inv s.packet pc s.receiver n → Good (send_call s x pc)
  unfolding send_call
  send_cases Sender.idle x m = elim (Bool-cases s.packet.flags.receiver_disconnected) [
    | inl gone ↦
        subst Good (sym (if_true _ _ gone)) (record { phases = g.phases; history = g.history })
    | inr here ↦ elim (Bool-cases s.packet.flags.data_available) [
      | inl full ↦
          subst Good (sym (if_false _ _ here ∙ if_true _ _ full))
            (record { phases = g.phases; history = g.history })
      | inr room ↦ subst Good (sym (if_false _ _ here ∙ if_false _ _ room)) (record {
        phases = Sends.storing_lem s.packet s.receiver n x m here room;
        history = g.history;
      })
    ]
  ]
  send_cases (Sender.storing y) x m = g
  send_cases Sender.setting x m = g
  send_cases (Sender.looping closing f) x m = g
  send_cases (Sender.waking closing f) x m = g
  send_cases (Sender.unparking closing f) x m = g
  send_cases (Sender.clearing y) x m = g
  send_cases (Sender.notifying closing f) x m = g
  send_cases Sender.gone x m = g

  pub send_call_lem : (x : T) → Good (send_call s x s.sender)
  send_call_lem x = send_cases s.sender x g.phases

  disconnect_cases : (pc : Sender T) → Inv s.packet pc s.receiver n → Good (disconnect_call s pc)
  unfolding disconnect_call
  disconnect_cases Sender.idle m = record {
    phases = Sends.close_lem s.packet s.receiver n m;
    history = g.history;
  }
  disconnect_cases (Sender.storing y) m = g
  disconnect_cases Sender.setting m = g
  disconnect_cases (Sender.looping closing f) m = g
  disconnect_cases (Sender.waking closing f) m = g
  disconnect_cases (Sender.unparking closing f) m = g
  disconnect_cases (Sender.clearing y) m = g
  disconnect_cases (Sender.notifying closing f) m = g
  disconnect_cases Sender.gone m = g

  pub disconnect_call_lem : Good (disconnect_call s s.sender)
  disconnect_call_lem = disconnect_cases s.sender g.phases
