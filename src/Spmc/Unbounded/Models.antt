-- ===== src/Spmc/Unbounded/Models.antt =====
-- How a packet of the unbounded SPMC channel stands for a queue of messages between its ends.
use comm.Prelude.{not, ◌+◌, ◌<◌, ◌^◌, ◌≤◌, ◌≡◌, Bool, ◌==◌, length}
use comm.Channel.Peers.{
  Peers, IsAllowed, Call, send, recv, clone_sender, drop_sender, clone_receiver, drop_receiver,
}
use comm.Nodes.Messages.{Stores}
use comm.Select.Inner.Laws.{IsAddress}
use comm.Select.WaitQueue.Told.{AllValid}
use comm.Select.Watch.Laws.{IsConsistent}
use comm.Spmc.Unbounded.{State}

-- `mutex` says whether the sleeping mutex is taken.
pub record Models {ℓ} {T : Type ℓ} (mutex : Bool) (s : State T) (c : Peers T) : Type ℓ where
  pub stores : Stores s.0.ends c.items
  pub queued : s.0.num_queued ≡ length c.items
  pub room : length c.items < 2 ^ 64
  pub sender : s.0.have_sender ≡ not (c.senders == 0)
  pub receivers : s.0.num_receivers ≡ c.receivers
  pub one_sender : c.senders ≤ 1
  pub few_receivers : c.receivers < 2 ^ 64
  pub lock : s.0.sleepers.mutex ≡ mutex
  pub hint : IsConsistent s.0.watch
  pub address : IsAddress s.0.watch.queue.id
  pub valid : AllValid s.1

-- The sender of this channel cannot be cloned, and fewer than `2 ^ 64` messages fit in the memory.
abbrev pub IsCall {ℓ} : {T : Type ℓ} → Peers T → Call T → Type 0
IsCall c clone_sender = ⊥
IsCall c (send val) = IsAllowed c (send val) × (length c.items + 1 < 2 ^ 64)
IsCall c recv = IsAllowed c recv
IsCall c clone_receiver = IsAllowed c clone_receiver
IsCall c drop_sender = IsAllowed c drop_sender
IsCall c drop_receiver = IsAllowed c drop_receiver
