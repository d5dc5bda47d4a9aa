-- ===== src/Mpsc/Unbounded/Models.antt =====
-- How a packet of the unbounded MPSC channel stands for a queue of messages between its ends.
use comm.Prelude.{◌^◌, not, ◌<◌, ◌≤◌, ◌≡◌, Bool, ◌==◌}
use comm.Channel.Peers.{
  IsAllowed, Peers, Call, send, recv, clone_sender, drop_sender, clone_receiver, drop_receiver,
}
use comm.Nodes.Messages.{Stores}
use comm.Select.Inner.Laws.{IsAddress}
use comm.Select.WaitQueue.Told.{AllValid}
use comm.Select.Watch.Laws.{IsConsistent}
use comm.Mpsc.Unbounded.{State}

-- `mutex` says whether the sleeping mutex is taken.
pub record Models {ℓ} {T : Type ℓ} (mutex : Bool) (s : State T) (c : Peers T) : Type ℓ where
  pub stores : Stores s.0.ends c.items
  pub senders : s.0.num_senders ≡ c.senders
  pub receiver : s.0.have_receiver ≡ not (c.receivers == 0)
  pub few_senders : c.senders < 2 ^ 64
  pub one_receiver : c.receivers ≤ 1
  pub lock : s.0.sleeper.mutex ≡ mutex
  pub hint : IsConsistent s.0.watch
  pub address : IsAddress s.0.watch.queue.id
  pub valid : AllValid s.1

-- The receiver of this channel cannot be cloned.
abbrev pub IsCall {ℓ} : {T : Type ℓ} → Peers T → Call T → Type 0
IsCall c clone_receiver = ⊥
IsCall c (send val) = IsAllowed c (send val)
IsCall c recv = IsAllowed c recv
IsCall c clone_sender = IsAllowed c clone_sender
IsCall c drop_sender = IsAllowed c drop_sender
IsCall c drop_receiver = IsAllowed c drop_receiver
