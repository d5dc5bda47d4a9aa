-- ===== src/Spmc/BoundedFast/Models.antt =====
-- How a packet of the fast bounded SPMC channel stands for a queue of messages between its ends.
use comm.Prelude.{ℕ, not, ◌<◌, ◌^◌, ◌≤◌, ◌≡◌, Bool, List, ◌==◌, length}
use comm.Channel.Peers
use comm.Channel.Peers.{
  Peers, IsAllowed, Call, send, recv, clone_sender, drop_sender, clone_receiver, drop_receiver,
  Reply,
}
use comm.Select.Inner.Laws.{IsAddress}
use comm.Select.WaitQueue.Told.{AllValid}
use comm.Select.Watch.Laws.{IsConsistent}
use comm.Slots.IsQueue.{IsQueue}
use comm.Spmc.BoundedFast.{State}

-- The packet has `2 ^ k` nodes; `mutex` says whether the sleeping mutex is taken.
pub record Models {ℓ} {T : Type ℓ} (k : ℕ) (mutex : Bool) (s : State T) (c : Peers T) : Type ℓ where
  pub queue : IsQueue k s.0.slots c.items
  pub receivers : s.0.num_receivers ≡ c.receivers
  pub sender : s.0.sender_disconnected ≡ (c.senders == 0)
  pub few_receivers : c.receivers < 2 ^ 64
  pub one_sender : c.senders ≤ 1
  pub lock : s.0.sleep_mutex ≡ mutex
  pub hint : IsConsistent s.0.watch
  pub address : IsAddress s.0.watch.queue.id
  pub valid : AllValid s.1

-- The sender of this channel cannot be cloned.
abbrev pub IsCall {ℓ} : {T : Type ℓ} → Peers T → Call T → Type 0
IsCall c clone_sender = ⊥
IsCall c (send val) = IsAllowed c (send val)
IsCall c recv = IsAllowed c recv
IsCall c clone_receiver = IsAllowed c clone_receiver
IsCall c drop_sender = IsAllowed c drop_sender
IsCall c drop_receiver = IsAllowed c drop_receiver

-- The queue that the channel stands for has `2 ^ k` places.
abbrev pub has_room {ℓ} : {T : Type ℓ} → ℕ → List T → Bool
has_room k items = not (length items == 2 ^ k)

abbrev pub spec {ℓ} : {T : Type ℓ} → ℕ → Peers T → Call T → Peers T × Reply T
spec k = Peers.step (has_room k)
