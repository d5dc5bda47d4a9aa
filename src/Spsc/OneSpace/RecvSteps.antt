-- ===== src/Spsc/OneSpace/RecvSteps.antt =====
-- Every step of the receiver goes on without a fault and keeps the messages.
use comm.Prelude.{
  Bool, true, false, not, ◌&&◌, none, some, List, [], ◌∷◌, ◌++◌, ◌>>=◌, ◌≡◌, refl, sym, ◌∙◌, ap,
  arith, is_some, Bool-cases, append-nil, inl, inr, if_true, if_false, if◌then◌else◌, err,
  disconnected, empty,
}
use comm.Spsc.OneSpace.{
  Flags, Receiver, System, take_out, finish, receiver_step, recv_sync_call, recv_async_call,
  recv_disconnect_call, spurious_wake,
}
use comm.Spsc.OneSpace.Good.{Good, Goes, some_held, held}
use comm.Spsc.OneSpace.Phases.{Inv, is_nil}
use comm.Spsc.OneSpace.Receives

take_history {ℓ} :
    {T : Type ℓ} (taken returned : List T) (x : T)
    → is_nil returned ≡ true
    → taken ++ (returned ++ (x ∷ [])) ≡ (taken ++ (x ∷ [])) ++ (returned ++ [])
take_history taken [] x e = sym (append-nil (taken ++ (x ∷ [])))
take_history taken (y ∷ ys) x e = cc

module _ {ℓ} {T : Type ℓ} (s : System T) (g : Good s) where
  abbrev n : Bool
  n = is_nil s.returned

  take_out_lem :
      (sync : Bool)
      → is_some s.packet.val ≡ true
      → n ≡ true
      → ((x : T) → Inv (record s.packet { val = none }) s.sender (Receiver.clearing sync x) n)
      → Goes (take_out s sync)
  unfolding take_out
  take_out_lem sync there alone m =
      let (x, e) = some_held s.packet.val there in
      (
        record s {
          packet = record s.packet { val = none };
          receiver = Receiver.clearing sync x;
          taken = s.taken ++ (x ∷ []);
        },
        rw (e, ◌>>=◌) refl,
        record {
          phases = m x;
          history =
              g.history
              ∙ ap (λ o. s.taken ++ (s.returned ++ held o)) e
              ∙ take_history s.taken s.returned x alone;
        },
      )

  finish_woken : (f : Flags) → Inv s.packet s.sender (Receiver.woken f) n → Goes (finish s f)
  unfolding finish
  finish_woken f m = elim (Bool-cases f.data_available) [
    | inl there ↦
        let (s', done, good) =
          take_out_lem true (ground arith) (ground arith)
            (λ x. Receives.woken_take_lem s.packet s.sender n f x m there) in
        (s', if_true _ _ there ∙ done, good)
    | inr nothing ↦ (
      record s { receiver = Receiver.ending (err disconnected) },
      if_false _ _ nothing,
      record {
        phases = Receives.woken_end_lem s.packet s.sender n f disconnected m nothing;
        history = g.history;
      },
    )
  ]

  finish_checked :
      (f : Flags)
      → Inv s.packet s.sender (Receiver.checked f) n
      → not f.data_available && not f.sender_disconnected ≡ false
      → Goes (finish s f)
  unfolding finish
  finish_checked f m test = elim (Bool-cases f.data_available) [
    | inl there ↦
        let (s', done, good) =
          take_out_lem true (ground arith) (ground arith)
            (λ x. Receives.checked_take_lem s.packet s.sender n f x m there) in
        (s', if_true _ _ there ∙ done, good)
    | inr nothing ↦ (
      record s { receiver = Receiver.ending (err disconnected) },
      if_false _ _ nothing,
      record {
        phases =
            Receives.checked_end_lem s.packet s.sender n f disconnected m nothing (ground arith);
        history = g.history;
      },
    )
  ]

  receiver_cases : (pc : Receiver T) → Inv s.packet s.sender pc n → Goes (receiver_step s pc)
  unfolding receiver_step
  receiver_cases Receiver.idle m = (s, refl, g)
  receiver_cases (Receiver.checked f) m =
      elim (Bool-cases (not f.data_available && not f.sender_disconnected)) [
        | inl sleep ↦ (
          record s {
            packet = record s.packet { receiver_thread = true };
            receiver = Receiver.arming;
          },
          if_true _ _ sleep,
          record {
            phases = Receives.arm_lem s.packet s.sender n f m (ground arith) (ground arith);
            history = g.history;
          },
        )
        | inr go ↦
            let (s', done, good) = finish_checked f m go in (s', if_false _ _ go ∙ done, good)
      ]
  receiver_cases Receiver.arming m =
      (_, refl, record { phases = Receives.sleep_lem s.packet s.sender n m; history = g.history })
  receiver_cases Receiver.parked m = elim (Bool-cases s.packet.token) [
    | inl there ↦ (
      record s { packet = record s.packet { token = false }; receiver = Receiver.loading },
      if_true _ _ there,
      record { phases = Receives.token_lem s.packet s.sender n m; history = g.history },
    )
    | inr nothing ↦ (s, if_false _ _ nothing, g)
  ]
  receiver_cases Receiver.loading m = elim (Bool-cases s.packet.flags.receiver_sleeping) [
    | inl sl ↦ (
      record s { receiver = Receiver.parked },
      ap (λ r. some (record s { receiver = r })) (if_true _ _ sl),
      record { phases = Receives.park_again_lem s.packet s.sender n m sl; history = g.history },
    )
    | inr up ↦ (
      record s { receiver = Receiver.woken s.packet.flags },
      ap (λ r. some (record s { receiver = r })) (if_false _ _ up),
      record { phases = Receives.woken_lem s.packet s.sender n m up; history = g.history },
    )
  ]
  receiver_cases (Receiver.woken f) m = finish_woken f m
  receiver_cases (Receiver.polled f) m = elim (Bool-cases f.data_available) [
    | inl there ↦
        let (s', done, good) =
          take_out_lem false (ground arith) (ground arith)
            (λ x. Receives.polled_take_lem s.packet s.sender n f x m there) in
        (s', if_true _ _ there ∙ done, good)
    | inr nothing ↦ (
      record s {
        receiver = Receiver.idle;
        received = some (err (if f.sender_disconnected then disconnected else empty));
      },
      if_false _ _ nothing,
      record { phases = Receives.polled_end_lem s.packet s.sender n f m; history = g.history },
    )
  ]
  receiver_cases (Receiver.clearing true x) m = (
    _,
    refl,
    record { phases = Receives.clear_sync_lem s.packet s.sender n x m; history = g.history },
  )
  receiver_cases (Receiver.clearing false x) m = (
    _,
    refl,
    record { phases = Receives.clear_async_lem s.packet s.sender n x m; history = g.history },
  )
  receiver_cases (Receiver.ending out) m =
      (_, refl, record { phases = Receives.end_lem s.packet s.sender n out m; history = g.history })
  receiver_cases Receiver.gone m = (s, refl, g)

  pub receiver_step_lem : Goes (receiver_step s s.receiver)
  receiver_step_lem = receiver_cases s.receiver g.phases

  -- The calls that the receiver begins, and a wake-up without a cause.
  recv_sync_cases : (pc : Receiver T) → Inv s.packet s.sender pc n → Good (recv_sync_call s pc)
  unfolding recv_sync_call
  recv_sync_cases Receiver.idle m = record {
    phases = Receives.check_lem s.packet s.sender n m;
    history = g.history;
  }
  recv_sync_cases (Receiver.checked f) m = g
  recv_sync_cases Receiver.arming m = g
  recv_sync_cases Receiver.parked m = g
  recv_sync_cases Receiver.loading m = g
  recv_sync_cases (Receiver.woken f) m = g
  recv_sync_cases (Receiver.polled f) m = g
  recv_sync_cases (Receiver.clearing sync x) m = g
  recv_sync_cases (Receiver.ending out) m = g
  recv_sync_cases Receiver.gone m = g

  recv_async_cases : (pc : Receiver T) → Inv s.packet s.sender pc n → Good (recv_async_call s pc)
  unfolding recv_async_call
  recv_async_cases Receiver.idle m = record {
    phases = Receives.poll_lem s.packet s.sender n m;
    history = g.history;
  }
  recv_async_cases (Receiver.checked f) m = g
  recv_async_cases Receiver.arming m = g
  recv_async_cases Receiver.parked m = g
  recv_async_cases Receiver.loading m = g
  recv_async_cases (Receiver.woken f) m = g
  recv_async_cases (Receiver.polled f) m = g
  recv_async_cases (Receiver.clearing sync x) m = g
  recv_async_cases (Receiver.ending out) m = g
  recv_async_cases Receiver.gone m = g

  leave_cases : (pc : Receiver T) → Inv s.packet s.sender pc n → Good (recv_disconnect_call s pc)
  unfolding recv_disconnect_call
  leave_cases Receiver.idle m = record {
    phases = Receives.leave_lem s.packet s.sender n m;
    history = g.history;
  }
  leave_cases (Receiver.checked f) m = g
  leave_cases Receiver.arming m = g
  leave_cases Receiver.parked m = g
  leave_cases Receiver.loading m = g
  leave_cases (Receiver.woken f) m = g
  leave_cases (Receiver.polled f) m = g
  leave_cases (Receiver.clearing sync x) m = g
  leave_cases (Receiver.ending out) m = g
  leave_cases Receiver.gone m = g

  spurious_cases : (pc : Receiver T) → Inv s.packet s.sender pc n → Good (spurious_wake s pc)
  unfolding spurious_wake
  spurious_cases Receiver.parked m = record {
    phases = Receives.spurious_lem s.packet s.sender n m;
    history = g.history;
  }
  spurious_cases Receiver.idle m = g
  spurious_cases (Receiver.checked f) m = g
  spurious_cases Receiver.arming m = g
  spurious_cases Receiver.loading m = g
  spurious_cases (Receiver.woken f) m = g
  spurious_cases (Receiver.polled f) m = g
  spurious_cases (Receiver.clearing sync x) m = g
  spurious_cases (Receiver.ending out) m = g
  spurious_cases Receiver.gone m = g

  pub recv_sync_call_lem : Good (recv_sync_call s s.receiver)
  recv_sync_call_lem = recv_sync_cases s.receiver g.phases

  pub recv_async_call_lem : Good (recv_async_call s s.receiver)
  recv_async_call_lem = recv_async_cases s.receiver g.phases

  pub recv_disconnect_call_lem : Good (recv_disconnect_call s s.receiver)
  recv_disconnect_call_lem = leave_cases s.receiver g.phases

  pub spurious_wake_lem : Good (spurious_wake s s.receiver)
  spurious_wake_lem = spurious_cases s.receiver g.phases
