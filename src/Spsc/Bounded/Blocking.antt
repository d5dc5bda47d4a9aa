-- ===== src/Spsc/Bounded/Blocking.antt =====
-- src/spsc/bounded/imp.rs: the calls that block do what those of the queue do.
use comm.Prelude.{
  ℕ, ◌≡◌, refl, ◌∙◌, true, false, not, Option, some, List, [], ◌∷◌, ◌>>=◌, Bool-cases, Option-cases,
  inl, inr, is_some,
}
use comm.Channel
use comm.Channel.{Chan}
use comm.Channel.Calls
use comm.Channel.Calls.{
  Call, send, recv, drop_sender, drop_receiver, Reply, sent, received, dropped, try_again,
  is_empty_err,
}
use comm.Select.WaitQueue.{Selects}
use comm.Select.WaitQueue.Told.{AllValid}
use comm.Spsc.Bounded.{Packet}
use comm.Spsc.Bounded.Sync.{
  send_sync_loop, send_sync, recv_sync_loop, recv_sync, send_sync_loop_done, send_sync_loop_stuck,
  send_sync_loop_again, recv_sync_loop_done, recv_sync_loop_stuck, recv_sync_loop_again,
}
use comm.Spsc.Bounded.Models.{Models, Models-sleep}
use comm.Spsc.Bounded.Send.{send_async_refines}
use comm.Spsc.Bounded.Recv.{recv_async_refines}
use comm.Spsc.Bounded.Run.{put, run_refines}

-- Whether a blocking call has come back: then it no longer counts as asleep, and else it does.
abbrev pub Returned {ℓ κ} : {T : Type ℓ} {R : Type κ} → Packet T → Option R → Type 0
Returned p out = (p.have_sleeping ≡ not (is_some out)) × (p.sleeping_mutex ≡ false)

module _ {ℓ} {T : Type ℓ} (k : ℕ) where
  send_sync_loop_refines :
      (waits : List (List (Call T))) (p : Packet T) {c : Chan T} (selects : Selects) (val : T)
      → Models k p c
      → AllValid selects
      → p.have_sleeping ≡ true
      → p.sleeping_mutex ≡ true
      → let (c', out) = Calls.send_sync (put k) c val waits in
        (p' : Packet T) × (selects' : Selects) × (send_sync_loop waits p selects val
          ≡ some (p', selects', out))
        × Models k p' c'
        × AllValid selects'
        × Returned p' out
  send_sync_loop_refines [] p {c} selects val m valid asleep lock =
      let (p', selects', done, m', keeps, valid', woke) =
        send_async_refines p m selects val true valid lock in
      elim (Option-cases (try_again (put k c val).1)) [
        | inl e ↦ rw (Calls.send_sync_done (put k) c val [] e) (
          record p' { have_sleeping = false; sleeping_mutex = false },
          selects',
          send_sync_loop_done [] p selects val done e,
          Models-sleep false false m',
          valid',
          (refl, refl),
        )
        | inr (v, e) ↦ rw (Calls.send_sync_stuck (put k) c val e) (
          record p' { sleeping_mutex = false },
          selects',
          send_sync_loop_stuck p selects val done e,
          Models-sleep p'.have_sleeping false m',
          valid',
          (keeps.have_sleeping ∙ asleep, refl),
        )
      ]
  send_sync_loop_refines (calls ∷ waits) p {c} selects val m valid asleep lock =
      let (p', selects', done, m', keeps, valid', woke) =
        send_async_refines p m selects val true valid lock in
      elim (Option-cases (try_again (put k c val).1)) [
        | inl e ↦ rw (Calls.send_sync_done (put k) c val (calls ∷ waits) e) (
          record p' { have_sleeping = false; sleeping_mutex = false },
          selects',
          send_sync_loop_done (calls ∷ waits) p selects val done e,
          Models-sleep false false m',
          valid',
          (refl, refl),
        )
        | inr (v, e) ↦
            let (p'', selects'', ran, m'', keeps', valid'') =
              run_refines k calls (record p' { sleeping_mutex = false }) selects'
                (Models-sleep p'.have_sleeping false m') valid' refl in
            let (q, selects_q, looped, m_q, valid_q, returned) =
              send_sync_loop_refines waits (record p'' { sleeping_mutex = true }) selects'' v
                (Models-sleep p''.have_sleeping true m'') valid''
                (keeps'.have_sleeping ∙ keeps.have_sleeping ∙ asleep) refl in
            rw (Calls.send_sync_again (put k) c val calls waits e) (
              q,
              selects_q,
              send_sync_loop_again calls waits p selects val done e ran ∙ looped,
              m_q,
              valid_q,
              returned,
            )
      ]

  recv_sync_loop_refines :
      (waits : List (List (Call T))) (p : Packet T) {c : Chan T} (selects : Selects)
      → Models k p c
      → AllValid selects
      → p.have_sleeping ≡ true
      → p.sleeping_mutex ≡ true
      → let (c', out) = Calls.recv_sync (put k) c waits in
        (p' : Packet T) × (selects' : Selects) × (recv_sync_loop waits p selects
          ≡ some (p', selects', out))
        × Models k p' c'
        × AllValid selects'
        × Returned p' out
  recv_sync_loop_refines [] p {c} selects m valid asleep lock =
      let (p', done, m', keeps, watch, woke) = recv_async_refines p m true lock in
      elim (Bool-cases (is_empty_err (Channel.recv c).1)) [
        | inr e ↦ rw (Calls.recv_sync_done (put k) c [] e) (
          record p' { have_sleeping = false; sleeping_mutex = false },
          selects,
          recv_sync_loop_done [] p selects done e,
          Models-sleep false false m',
          valid,
          (refl, refl),
        )
        | inl e ↦ rw (Calls.recv_sync_stuck (put k) c e) (
          record p' { sleeping_mutex = false },
          selects,
          recv_sync_loop_stuck p selects done e,
          Models-sleep p'.have_sleeping false m',
          valid,
          (keeps.have_sleeping ∙ asleep, refl),
        )
      ]
  recv_sync_loop_refines (calls ∷ waits) p {c} selects m valid asleep lock =
      let (p', done, m', keeps, watch, woke) = recv_async_refines p m true lock in
      elim (Bool-cases (is_empty_err (Channel.recv c).1)) [
        | inr e ↦ rw (Calls.recv_sync_done (put k) c (calls ∷ waits) e) (
          record p' { have_sleeping = false; sleeping_mutex = false },
          selects,
          recv_sync_loop_done (calls ∷ waits) p selects done e,
          Models-sleep false false m',
          valid,
          (refl, refl),
        )
        | inl e ↦
            let (p'', selects'', ran, m'', keeps', valid'') =
              run_refines k calls (record p' { sleeping_mutex = false }) selects
                (Models-sleep p'.have_sleeping false m') valid refl in
            let (q, selects_q, looped, m_q, valid_q, returned) =
              recv_sync_loop_refines waits (record p'' { sleeping_mutex = true }) selects''
                (Models-sleep p''.have_sleeping true m'') valid''
                (keeps'.have_sleeping ∙ keeps.have_sleeping ∙ asleep) refl in
            rw (Calls.recv_sync_again (put k) c calls waits e) (
              q,
              selects_q,
              recv_sync_loop_again calls waits p selects done e ran ∙ looped,
              m_q,
              valid_q,
              returned,
            )
      ]

  -- From a packet that stands for a queue, with valid `Select` objects, the mutex free and nobody
  -- asleep, a blocking send does what that of the queue does, whichever calls come between its tries,
  -- and no call faults. The mutex is free at the end, and the thread counts as asleep exactly if it
  -- has not come back.
  pub send_sync_refines :
      (p : Packet T) {c : Chan T} (selects : Selects) (val : T) (before : List (Call T))
      (waits : List (List (Call T)))
      → Models k p c
      → AllValid selects
      → p.have_sleeping ≡ false
      → p.sleeping_mutex ≡ false
      → let (c', out) = Calls.send_sync (put k) c val (before ∷ waits) in
        (p' : Packet T) × (selects' : Selects) × (send_sync p selects val before waits
          ≡ some (p', selects', out))
        × Models k p' c'
        × AllValid selects'
        × Returned p' out
  unfolding send_sync
  send_sync_refines p {c} selects val before waits m valid awake lock =
      let (p', selects', done, m', keeps, valid', woke) =
        send_async_refines p m selects val false valid lock in
      elim (Option-cases (try_again (put k c val).1)) [
        | inl e ↦ rw (Calls.send_sync_done (put k) c val (before ∷ waits) e) (
          p',
          selects',
          rw (done, ◌>>=◌, e),
          m',
          valid',
          (keeps.have_sleeping ∙ awake, keeps.sleeping_mutex ∙ lock),
        )
        | inr (v, e) ↦
            let (p'', selects'', ran, m'', keeps', valid'') =
              run_refines k before p' selects' m' valid' (keeps.sleeping_mutex ∙ lock) in
            let (q, selects_q, looped, m_q, valid_q, returned) =
              send_sync_loop_refines waits
                (record p'' { have_sleeping = true; sleeping_mutex = true }) selects'' v
                (Models-sleep true true m'') valid'' refl refl in
            rw (Calls.send_sync_again (put k) c val before waits e)
              (q, selects_q, rw (done, ◌>>=◌, e, ◌>>=◌, ran, ◌>>=◌) looped, m_q, valid_q, returned)
      ]

  -- From a packet that stands for a queue, with valid `Select` objects, the mutex free and nobody
  -- asleep, a blocking receive does what that of the queue does, whichever calls come between its
  -- tries, and no call faults. The mutex is free at the end, and the thread counts as asleep exactly
  -- if it has not come back.
  pub recv_sync_refines :
      (p : Packet T) {c : Chan T} (selects : Selects) (before : List (Call T))
      (waits : List (List (Call T)))
      → Models k p c
      → AllValid selects
      → p.have_sleeping ≡ false
      → p.sleeping_mutex ≡ false
      → let (c', out) = Calls.recv_sync (put k) c (before ∷ waits) in
        (p' : Packet T) × (selects' : Selects) × (recv_sync p selects before waits
          ≡ some (p', selects', out))
        × Models k p' c'
        × AllValid selects'
        × Returned p' out
  unfolding recv_sync
  recv_sync_refines p {c} selects before waits m valid awake lock =
      let (p', done, m', keeps, watch, woke) = recv_async_refines p m false lock in
      elim (Bool-cases (is_empty_err (Channel.recv c).1)) [
        | inl e ↦
            let (p'', selects'', ran, m'', keeps', valid'') =
              run_refines k before p' selects m' valid (keeps.sleeping_mutex ∙ lock) in
            let (q, selects_q, looped, m_q, valid_q, returned) =
              recv_sync_loop_refines waits
                (record p'' { have_sleeping = true; sleeping_mutex = true }) selects''
                (Models-sleep true true m'') valid'' refl refl in
            rw (Calls.recv_sync_again (put k) c before waits e)
              (q, selects_q, rw (done, ◌>>=◌, e, ◌>>=◌, ran, ◌>>=◌) looped, m_q, valid_q, returned)
        | inr e ↦ rw (Calls.recv_sync_done (put k) c (before ∷ waits) e) (
          p',
          selects,
          rw (done, ◌>>=◌, e),
          m',
          valid,
          (keeps.have_sleeping ∙ awake, keeps.sleeping_mutex ∙ lock),
        )
      ]
