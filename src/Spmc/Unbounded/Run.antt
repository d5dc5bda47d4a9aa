-- ===== src/Spmc/Unbounded/Run.antt =====
-- Sequences of calls on the unbounded SPMC channel, the receive that blocks, and its beginning and end.
use comm.Prelude.{
  sym, ℕ, ◌<◌, ◌≡◌, refl, subst, Bool, true, false, none, some, List, [], ◌∷◌, ◌>>=◌, arith, length,
  ◌==◌, Map, contains_key,
}
use comm.Channel.Calls.{is_empty_err}
use comm.Channel.Peers
use comm.Channel.Peers.{
  Peers, Call, send, recv, clone_sender, drop_sender, clone_receiver, drop_receiver, Reply, put,
  get,
}
use comm.Nodes.{Node, IsFresh}
use comm.Nodes.Messages.{new-Stores, last_node}
use comm.Select.WaitQueue.{Selects}
use comm.Select.WaitQueue.Told.{AllValid}
use comm.Simulation.{run, spec_run, AllAllowed, run_lem}
use comm.Simulation.Blocking.{spec_block, AllWaits, block_lem}
use comm.Simulation.Drain.{drain_lem}
use comm.Spmc.Unbounded.{Sleepers, enter, sleep, wake, leave}
use comm.Channel.Ends.{only_one}
use comm.Spmc.Unbounded.{
  on_sleepers, add_receiver, remove_receiver, Packet, State, recv_async, new, drop, step, try_recv,
  recv_sync,
}
use comm.Spmc.Unbounded.Models.{Models, IsCall}
use comm.Spmc.Unbounded.Calls.{
  recv_async_lem, add_receiver_lem, remove_sender_lem, remove_receiver_lem, send_val_lem,
}

-- The queue that the channel stands for has room for any number of messages.
abbrev pub spec {ℓ} : {T : Type ℓ} → Peers T → Call T → Peers T × Reply T
spec = Peers.step (λ items. true)

module _ {ℓ} {T : Type ℓ} where
  Models-sleepers :
      {mutex : Bool} (p : Packet T) (selects : Selects) (c : Peers T) (sleepers : Sleepers)
      → Models mutex (p, selects) c
      → Models sleepers.mutex (record p { sleepers = sleepers }, selects) c
  Models-sleepers p selects c sleepers m = record {
    stores = m.stores;
    queued = m.queued;
    room = m.room;
    sender = m.sender;
    receivers = m.receivers;
    one_sender = m.one_sender;
    few_receivers = m.few_receivers;
    lock = refl;
    hint = m.hint;
    address = m.address;
    valid = m.valid;
  }

  tries :
      (mutex : Bool) (s : State T) (c : Peers T)
      → Models mutex s c
      → (s' : State T) × (try_recv s ≡ some (s', (get c).1)) × Models mutex s' (get c).0
  unfolding try_recv
  tries mutex (p, selects) c m =
      let (p', done, m') = recv_async_lem mutex p selects c m in
      ((p', selects), rw (done, ◌>>=◌) refl, m')

  module _ (alloc : Map (Node T) → ℕ) (fresh : IsFresh alloc) where
    steps :
        (s : State T) (c : Peers T) (call : Call T)
        → Models false s c
        → IsCall c call
        → (s' : State T) × (step alloc s call ≡ some (s', (spec c call).1))
          × Models false s' (spec c call).0
    unfolding step Peers.step
    steps (p, selects) c (send val) m i =
        let (s, done, ms, woke) = send_val_lem alloc fresh p selects val c m i.1 in
        (s, rw (done, ◌>>=◌) refl, ms)
    steps (p, selects) c recv m i =
        let (p', done, m') = recv_async_lem false p selects c m in
        ((p', selects), rw (done, ◌>>=◌) refl, m')
    steps (p, selects) c clone_receiver m i =
        ((add_receiver p, selects), refl, add_receiver_lem p selects c m i.1)
    steps (p, selects) c drop_receiver m i =
        ((remove_receiver p, selects), refl, remove_receiver_lem p selects c m i)
    steps (p, selects) c drop_sender m i =
        let (s, done, ms, sl, told) = remove_sender_lem p selects c m in
        (
          s,
          rw (done, ◌>>=◌) refl,
          subst (λ n. Models false s (record c { senders = n }))
              (sym (only_one c.senders i m.one_sender)) ms,
        )
    steps s c clone_sender m i = elim i [ ]

    -- From a packet that stands for a queue, with valid `Select` objects and the mutex free, and with an
    -- allocator that gives unused non-null addresses, no sequence of calls that the living ends make faults,
    -- every reply is that of the unbounded queue, and the packet stands for that queue at the end.
    pub spmc_run_refines :
        (calls : List (Call T)) (s : State T) (c : Peers T)
        → Models false s c
        → AllAllowed spec IsCall c calls
        → (s' : State T) × (run (step alloc) s calls ≡ some (s', (spec_run spec c calls).1))
          × Models false s' (spec_run spec c calls).0
    spmc_run_refines = run_lem (step alloc) spec IsCall (Models false) steps

    -- From a packet that stands for a queue, with valid `Select` objects and the mutex free, and with an
    -- allocator that gives unused non-null addresses, `recv_sync` answers as the blocking receive of the queue
    -- does, whichever calls of the other ends come between its tries, and no call faults. The mutex is
    -- free at the end.
    pub spmc_recv_sync_refines :
        (before : List (Call T)) (waits : List (List (Call T))) (s : State T) (c : Peers T)
        → Models false s c
        → AllWaits spec get is_empty_err IsCall c (before ∷ waits)
        → let (c', out) = spec_block spec get is_empty_err (before ∷ waits) c in
          (s' : State T) × (recv_sync alloc before waits s ≡ some (s', out)) × Models false s' c'
    unfolding recv_sync
    spmc_recv_sync_refines =
        block_lem (step alloc) try_recv try_recv is_empty_err (on_sleepers enter)
          (on_sleepers sleep) (on_sleepers wake) (on_sleepers leave) spec get IsCall (Models false)
          (Models true) steps (tries false) (tries true)
          (λ s c m. Models-sleepers s.0 s.1 c (enter s.0.sleepers) m)
          (λ s c m. Models-sleepers s.0 s.1 c (sleep s.0.sleepers) m)
          (λ s c m. Models-sleepers s.0 s.1 c (wake s.0.sleepers) m)
          (λ s c m. Models-sleepers s.0 s.1 c (leave s.0.sleepers) m)

    -- With an allocator that gives unused non-null addresses, `new` makes a packet that stands for the empty
    -- queue between one sender and one receiver.
    pub spmc_new_lem :
        (selects : Selects)
        → AllValid selects
        → Models false (new alloc, selects) (record { items = []; senders = 1; receivers = 1 })
    spmc_new_lem selects valid = record {
      stores = new-Stores alloc fresh;
      queued = refl;
      room = omega arith;
      sender = refl;
      receivers = refl;
      one_sender = omega arith;
      few_receivers = omega arith;
      lock = refl;
      hint = refl;
      address = (omega arith, refl);
      valid = valid;
    }

  -- Of a packet that stands for a queue, and with fuel for more rounds than there are messages, `drop`
  -- ends without a fault and destroys the messages that are left, each once and in order. It does not
  -- free the last node: the heap then holds that node, and no other.
  pub spmc_drop_lem :
      (mutex : Bool) (fuel : ℕ) (p : Packet T) (selects : Selects) (c : Peers T)
      → Models mutex (p, selects) c
      → length c.items < fuel
      → (p' : Packet T) × (drop fuel p ≡ some (p', c.items, none))
        × ((w : ℕ) → contains_key w p'.ends.heap ≡ (p'.ends.read_end == w))
  unfolding drop
  spmc_drop_lem mutex fuel p selects c m enough =
      let (p', done, m') =
        drain_lem recv_async (λ q d. Models mutex (q, selects) d)
          (λ q d mq. recv_async_lem mutex q selects d mq) c.items fuel p c refl m enough in
      let (there, only) = last_node p'.ends m'.stores in
      (p', rw (done, ◌>>=◌, there, ◌>>=◌) refl, only)
