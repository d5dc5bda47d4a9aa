-- ===== src/Mpmc/Bounded/Sync/Counts.antt =====
-- What the bounded MPMC channel promises its peers: a queue, and the numbers of peers that are awake, and that sleep
-- in a send or in a receive.
use comm.Prelude.{
  ℕ, ◌+◌, ◌-◌, ◌^◌, ◌≤◌, ◌<◌, ◌≡◌, Bool, true, false, List, [], ◌∷◌, ◌++◌, length, if◌then◌else◌,
  ◌==◌, ok, err, deadlock,
}
use comm.Select.WaitQueue.Told.{AllValid}
use comm.Mpmc.Bounded.{State}
use comm.Mpmc.Bounded.Models.{Models, put, get}
use comm.Mpmc.Bounded.Sync.{Turn, Reply, sent, received, waits, done}

pub record Party {ℓ} (T : Type ℓ) : Type ℓ where
  pub items : List T
  pub awake : ℕ
  pub senders : ℕ
  pub receivers : ℕ

-- Of the peers that are awake or sleep on the other side, there is one: that which asks.
abbrev pub is_alone : (awake others : ℕ) → Bool
is_alone awake others = awake + others == 1

module _ {ℓ} {T : Type ℓ} where
  -- A blocking send, once more: it succeeds, reports a deadlock, or sleeps.
  unfoldable pub spec_send : (k : ℕ) → Party T → T → Party T × Reply T
  spec_send k c val =
      if length c.items == 2 ^ k
      then (if is_alone c.awake c.receivers
          then (record c { senders = c.senders - 1 }, sent (err (val, deadlock)))
          else (record c { awake = c.awake - 1 }, waits))
      else (record c { items = c.items ++ (val ∷ []); senders = c.senders - 1 }, sent (ok tt))

  -- A blocking receive, once more.
  unfoldable pub spec_recv : Party T → List T → Party T × Reply T
  spec_recv c [] =
      if is_alone c.awake c.senders
      then (record c { items = []; receivers = c.receivers - 1 }, received (err deadlock))
      else (record c { items = []; awake = c.awake - 1 }, waits)
  spec_recv c (x ∷ xs) = (record c { items = xs; receivers = c.receivers - 1 }, received (ok x))

  unfoldable pub spec : (k : ℕ) → Party T → Turn T → Party T × Reply T
  unfolding spec_send spec_recv put get
  spec k c (Turn.send_async val) =
      (record c { items = (put (2 ^ k) c.items val).0 }, sent (put (2 ^ k) c.items val).1)
  spec k c Turn.recv_async = (record c { items = (get c.items).0 }, received (get c.items).1)
  spec k c Turn.clone = (record c { awake = c.awake + 1 }, done)
  spec k c Turn.drop = (record c { awake = c.awake - 1 }, done)
  spec k c (Turn.send_lock val) = spec_send k (record c { senders = c.senders + 1 }) val
  spec k c (Turn.send_wake val) = spec_send k (record c { awake = c.awake + 1 }) val
  spec k c Turn.recv_lock = spec_recv (record c { receivers = c.receivers + 1 }) c.items
  spec k c Turn.recv_wake = spec_recv (record c { awake = c.awake + 1 }) c.items

  -- All peers together.
  abbrev pub peers : Party T → ℕ
  peers c = c.awake + c.senders + c.receivers

  -- Only a peer that is awake calls, only one that sleeps wakes up, and peers are not cloned without end.
  abbrev pub IsTurn : Party T → Turn T → Type 0
  IsTurn c (Turn.send_async val) = 1 ≤ c.awake
  IsTurn c Turn.recv_async = 1 ≤ c.awake
  IsTurn c Turn.clone = (1 ≤ c.awake) × (peers c + 1 < 2 ^ 63)
  IsTurn c Turn.drop = 1 ≤ c.awake
  IsTurn c (Turn.send_lock val) = 1 ≤ c.awake
  IsTurn c (Turn.send_wake val) = 1 ≤ c.senders
  IsTurn c Turn.recv_lock = 1 ≤ c.awake
  IsTurn c Turn.recv_wake = 1 ≤ c.receivers

-- While the mutex is taken one peer counts twice.
abbrev pub slack : Bool → ℕ
slack true = 0
slack false = 1

-- The packet stands for the queue and the numbers of peers; `mutex` says whether the sleeping mutex is taken.
pub record Stands {ℓ} {T : Type ℓ} (k : ℕ) (mutex : Bool) (s : State T) (c : Party T) : Type ℓ where
  pub queue : Models k s.0 c.items
  pub awake : s.0.peers_awake ≡ c.awake
  pub senders : s.0.sleeping_senders ≡ c.senders
  pub receivers : s.0.sleeping_receivers ≡ c.receivers
  pub few : slack mutex + (c.awake + c.senders + c.receivers) ≤ 2 ^ 63
  pub lock : s.0.sleep_mutex ≡ mutex
  pub valid : AllValid s.1
