-- ===== src/Spsc/Bounded/Run.antt =====
-- Sequences of calls and blocking calls of the bounded SPSC channel behave as those of the queue.
use comm.Prelude.{ℕ, ◌^◌, ◌≡◌, refl, ◌∙◌, false, some, List, [], ◌∷◌, Result, Error}
use comm.Channel
use comm.Channel.{Chan}
use comm.Channel.Calls
use comm.Channel.Calls.{
  Call, send, recv, drop_sender, drop_receiver, Reply, sent, received, dropped, try_again,
  is_empty_err,
}
use comm.Select.WaitQueue.{Selects}
use comm.Select.WaitQueue.Told.{AllValid}
use comm.Spsc.Bounded.{Packet}
use comm.Spsc.Bounded.Sync.{step, run}
use comm.Spsc.Bounded.Models.{Models, Keeps, Keeps-refl}
use comm.Spsc.Bounded.Send.{send_async_refines}
use comm.Spsc.Bounded.Recv.{recv_async_refines}
use comm.Spsc.Bounded.Disconnect.{disconnect_sender_refines, disconnect_receiver_refines}

Keeps-trans {ℓ} : {T : Type ℓ} {p q r : Packet T} → Keeps p q → Keeps q r → Keeps p r
Keeps-trans a b = record {
  id = b.id ∙ a.id;
  have_sleeping = b.have_sleeping ∙ a.have_sleeping;
  sleeping_mutex = b.sleeping_mutex ∙ a.sleeping_mutex;
  name = b.name ∙ a.name;
}

module _ {ℓ} {T : Type ℓ} (k : ℕ) where
  -- The send of the queue that the channel implements.
  abbrev pub put : Chan T → T → Chan T × Result (Unit {0}) (T × Error)
  put = Channel.send (2 ^ k)

  step_refines :
      (p : Packet T) {c : Chan T} (selects : Selects) (call : Call T)
      → Models k p c
      → AllValid selects
      → p.sleeping_mutex ≡ false
      → let (c', reply) = Calls.step put c call in
        (p' : Packet T) × (selects' : Selects) × (step p selects call ≡ some (p', selects', reply))
        × Models k p' c'
        × Keeps p p'
        × AllValid selects'
  unfolding step Calls.step
  step_refines p {c} selects (send val) m valid lock =
      let (p', selects', done, m', keeps, valid', woke) =
        send_async_refines p m selects val false valid lock in
      (p', selects', rw done, m', keeps, valid')
  step_refines p {c} selects recv m valid lock =
      let (p', done, m', keeps, watch, woke) = recv_async_refines p m false lock in
      (p', selects, rw done, m', keeps, valid)
  step_refines p {c} selects drop_sender m valid lock =
      let (p', selects', done, m', keeps, told, valid', woke) =
        disconnect_sender_refines p m selects valid lock in
      (p', selects', rw done, m', keeps, valid')
  step_refines p {c} selects drop_receiver m valid lock =
      let (p', done, m', keeps, watch, woke) = disconnect_receiver_refines p m lock in
      (p', selects, rw done, m', keeps, valid)

  -- From a packet that stands for a queue, with valid `Select` objects and the mutex free, no sequence
  -- of sends, receives and disconnects faults, every reply is that of the queue of `2 ^ k` places, and
  -- the packet stands for that queue at the end.
  pub run_refines :
      (calls : List (Call T)) (p : Packet T) {c : Chan T} (selects : Selects)
      → Models k p c
      → AllValid selects
      → p.sleeping_mutex ≡ false
      → let (c', replies) = Calls.run put c calls in
        (p' : Packet T) × (selects' : Selects) × (run p selects calls
          ≡ some (p', selects', replies))
        × Models k p' c'
        × Keeps p p'
        × AllValid selects'
  unfolding run Calls.run
  run_refines [] p selects m valid lock = (p, selects, refl, m, Keeps-refl p, valid)
  run_refines (call ∷ calls) p selects m valid lock =
      let (p', selects', done, m', keeps, valid') = step_refines p selects call m valid lock in
      let (p'', selects'', done', m'', keeps', valid'') =
        run_refines calls p' selects' m' valid' (keeps.sleeping_mutex ∙ lock) in
      (p'', selects'', rw (done, done'), m'', Keeps-trans keeps keeps', valid'')
