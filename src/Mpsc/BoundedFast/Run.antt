-- ===== src/Mpsc/BoundedFast/Run.antt =====
-- Sequences of calls on the fast bounded MPSC channel, the calls that block, and its end.
use comm.Prelude.{
  ℕ, ◌<◌, ◌≡◌, refl, sym, subst, Bool, true, false, some, List, [], ◌∷◌, ◌>>=◌, length,
}
use comm.Channel.Calls.{is_empty_err}
use comm.Channel.Ends.{only_one}
use comm.Channel.Peers
use comm.Channel.Peers.{
  Peers, Call, send, recv, clone_sender, drop_sender, clone_receiver, drop_receiver, Reply, put,
  get, is_full_err,
}
use comm.Select.WaitQueue.{Selects}
use comm.Simulation.{run, spec_run, AllAllowed, run_lem}
use comm.Simulation.Blocking.{spec_block, AllWaits, block_lem}
use comm.Simulation.Drain.{drain_lem}
use comm.Mpsc.BoundedFast.{
  Packet, State, add_sender, recv_async, drop, step, try_recv, try_send, lock, recv_enter,
  recv_leave, send_enter, send_leave, recv_sync, send_sync,
}
use comm.Mpsc.BoundedFast.Calls.{send_async_lem, recv_async_lem}
use comm.Mpsc.BoundedFast.Ends.{
  Models-sleep, add_sender_lem, remove_receiver_lem, remove_sender_lem,
}
use comm.Mpsc.BoundedFast.Models.{Models, IsCall, has_room, spec}

module _ {ℓ} {T : Type ℓ} (k : ℕ) where
  try_recv_lem :
      (mutex : Bool) (s : State T) (c : Peers T)
      → Models k mutex s c
      → (s' : State T) × (try_recv mutex s ≡ some (s', (get c).1)) × Models k mutex s' (get c).0
  unfolding try_recv
  try_recv_lem mutex (p, selects) c m =
      let (p', done, m') = recv_async_lem k mutex p selects c m in
      ((p', selects), rw (done, ◌>>=◌) refl, m')

  try_send_lem :
      (val : T) (mutex : Bool) (s : State T) (c : Peers T)
      → Models k mutex s c
      → (s' : State T) × (try_send val mutex s ≡ some (s', (put (has_room k) c val).1))
        × Models k mutex s' (put (has_room k) c val).0
  unfolding try_send
  try_send_lem val mutex (p, selects) c m =
      let (s, done, ms, told) = send_async_lem k mutex p selects c m val in (s, done, ms)

  steps :
      (s : State T) (c : Peers T) (call : Call T)
      → Models k false s c
      → IsCall c call
      → (s' : State T) × (step s call ≡ some (s', (spec k c call).1))
        × Models k false s' (spec k c call).0
  unfolding step Peers.step
  steps (p, selects) c (send val) m i =
      let (s, done, ms, told) = send_async_lem k false p selects c m val in
      (s, rw (done, ◌>>=◌) refl, ms)
  steps (p, selects) c recv m i =
      let (p', done, m') = recv_async_lem k false p selects c m in
      ((p', selects), rw (done, ◌>>=◌) refl, m')
  steps (p, selects) c clone_sender m i =
      ((add_sender p, selects), refl, add_sender_lem k p selects c m i.1)
  steps (p, selects) c drop_sender m i =
      let (s, done, ms, told) = remove_sender_lem k p selects c m i in
      (s, rw (done, ◌>>=◌) refl, ms)
  steps (p, selects) c drop_receiver m i =
      let (p', done, m', told) = remove_receiver_lem k p selects c m in
      (
        (p', selects),
        rw (done, ◌>>=◌) refl,
        subst (λ n. Models k false (p', selects) (record c { receivers = n }))
            (sym (only_one c.receivers i m.one_receiver)) m',
      )
  steps s c clone_receiver m i = elim i [ ]

  -- From a packet that stands for a queue, with valid `Select` objects and the mutex free, no sequence
  -- of calls that the living ends make faults, every reply is that of the queue of `2 ^ k` places, and
  -- the packet stands for that queue at the end.
  pub mpsc_fast_run_refines :
      (calls : List (Call T)) (s : State T) (c : Peers T)
      → Models k false s c
      → AllAllowed (spec k) IsCall c calls
      → (s' : State T) × (run step s calls ≡ some (s', (spec_run (spec k) c calls).1))
        × Models k false s' (spec_run (spec k) c calls).0
  mpsc_fast_run_refines = run_lem step (spec k) IsCall (Models k false) steps

  relock :
      (held mutex : Bool) (s : State T) (c : Peers T)
      → Models k mutex s c
      → Models k held (lock held s) c
  relock held mutex (p, selects) c m =
      Models-sleep k p selects c held p.have_sleeping_receiver p.sleeping_senders m

  -- From a packet that stands for a queue, with valid `Select` objects and the mutex free, `recv_sync`
  -- answers as the blocking receive of the queue does, whichever calls of the other ends come between
  -- its tries, and no call faults. The mutex is free at the end.
  pub mpsc_fast_recv_sync_refines :
      (before : List (Call T)) (waits : List (List (Call T))) (s : State T) (c : Peers T)
      → Models k false s c
      → AllWaits (spec k) get is_empty_err IsCall c (before ∷ waits)
      → let (c', out) = spec_block (spec k) get is_empty_err (before ∷ waits) c in
        (s' : State T) × (recv_sync before waits s ≡ some (s', out)) × Models k false s' c'
  unfolding recv_sync
  mpsc_fast_recv_sync_refines =
      block_lem step (try_recv false) (try_recv true) is_empty_err recv_enter (lock false)
        (lock true) recv_leave (spec k) get IsCall (Models k false) (Models k true) steps
        (try_recv_lem false) (try_recv_lem true)
        (λ s c m. Models-sleep k s.0 s.1 c true true s.0.sleeping_senders m) (relock false true)
        (relock true false) (λ s c m. Models-sleep k s.0 s.1 c false false s.0.sleeping_senders m)

  -- From a packet that stands for a queue, with valid `Select` objects and the mutex free, `send_sync`
  -- answers as the blocking send of the queue of `2 ^ k` places does, whichever calls of the other ends
  -- come between its tries, and no call faults. The mutex is free at the end.
  pub mpsc_fast_send_sync_refines :
      (val : T) (before : List (Call T)) (waits : List (List (Call T))) (s : State T) (c : Peers T)
      → Models k false s c
      → AllWaits (spec k) (λ d. put (has_room k) d val) is_full_err IsCall c (before ∷ waits)
      → let (c', out) =
          spec_block (spec k) (λ d. put (has_room k) d val) is_full_err (before ∷ waits) c in
        (s' : State T) × (send_sync val before waits s ≡ some (s', out)) × Models k false s' c'
  unfolding send_sync
  mpsc_fast_send_sync_refines val =
      block_lem step (try_send val false) (try_send val true) is_full_err send_enter (lock false)
        (lock true) send_leave (spec k) (λ d. put (has_room k) d val) IsCall (Models k false)
        (Models k true) steps (try_send_lem val false) (try_send_lem val true)
        (λ s c m.
          Models-sleep k s.0 s.1 c true s.0.have_sleeping_receiver (send_enter s).0.sleeping_senders
            m)
        (relock false true) (relock true false)
        (λ s c m.
          Models-sleep k s.0 s.1 c false s.0.have_sleeping_receiver
            (send_leave s).0.sleeping_senders m)

  -- Of a packet that stands for a queue, with the mutex free and with fuel for more rounds than there are
  -- messages, `drop` ends without a fault and destroys the messages that are left, each once and in
  -- order.
  pub mpsc_fast_drop_lem :
      (fuel : ℕ) (p : Packet T) (selects : Selects) (c : Peers T)
      → Models k false (p, selects) c
      → length c.items < fuel
      → (p' : Packet T) × (drop fuel p ≡ some (p', c.items))
        × Models k false (p', selects) (record c { items = [] })
  unfolding drop
  mpsc_fast_drop_lem fuel p selects c m enough =
      drain_lem (λ q. recv_async q false) (λ q d. Models k false (q, selects) d)
        (λ q d mq. recv_async_lem k false q selects d mq) c.items fuel p c refl m enough
