-- ===== src/Spsc/Unbounded/Models.antt =====
-- How a packet of the unbounded SPSC channel stands for a queue of messages between its ends.
use comm.Prelude.{◌<◌, ◌≤◌, ◌≡◌, Bool, ◌==◌}
use comm.Channel.Peers.{
  Peers, Call, send, recv, clone_sender, drop_sender, clone_receiver, drop_receiver,
}
use comm.Nodes.Messages.{Stores}
use comm.Select.Inner.Laws.{IsAddress}
use comm.Select.WaitQueue.Told.{AllValid}
use comm.Select.Watch.Laws.{IsConsistent}
use comm.Spsc.Unbounded.{State}

-- `mutex` says whether the sleeping mutex is taken.
pub record Models {ℓ} {T : Type ℓ} (mutex : Bool) (s : State T) (c : Peers T) : Type ℓ where
  pub stores : Stores s.0.ends c.items
  pub sender : s.0.sender_disconnected ≡ (c.senders == 0)
  pub receiver : s.0.receiver_disconnected ≡ (c.receivers == 0)
  pub one_sender : c.senders ≤ 1
  pub one_receiver : c.receivers ≤ 1
  pub lock : s.0.sleeper.mutex ≡ mutex
  pub hint : IsConsistent s.0.watch
  pub address : IsAddress s.0.watch.queue.id
  pub valid : AllValid s.1

-- The ends of this channel cannot be cloned.
abbrev pub IsCall {ℓ} : {T : Type ℓ} → Peers T → Call T → Type 0
IsCall c clone_sender = ⊥
IsCall c clone_receiver = ⊥
IsCall c (send val) = 0 < c.senders
IsCall c recv = 0 < c.receivers
IsCall c drop_sender = 0 < c.senders
IsCall c drop_receiver = 0 < c.receivers
