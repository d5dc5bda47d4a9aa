-- ===== src/Mpmc/Bounded/Sync.antt =====
-- src/mpmc/bounded/imp.rs: the peers of the channel in turns. A turn is a call that does not block, or the part
-- of `send_sync` or `recv_sync` between two waits, all of which holds `sleep_mutex`: the part from the
-- lock on, after a first try that is a call that does not block, or the part after a wait.
pub mod Counts
pub mod Rounds
pub mod Run
pub mod Awake
mod Tests
use comm.Prelude.{
  ℕ, ◌+◌, Bool, true, false, ◌&&◌, Option, none, some, List, ◌>>=◌, if◌then◌else◌, ◌==◌, add_usize,
  sub_usize, Result, ok, err, Error, deadlock,
}
use comm.Select.WaitQueue.{Selects}
use comm.Mpmc.Bounded.{Packet, State, add_peer, remove_peer}
use comm.Mpmc.Bounded

pub data Turn {ℓ} (T : Type ℓ) : Type ℓ where
  send_async : T → Turn T
  recv_async : Turn T
  clone : Turn T
  drop : Turn T
  send_lock : T → Turn T
  send_wake : T → Turn T
  recv_lock : Turn T
  recv_wake : Turn T

-- `waits` says that the peer has gone to sleep.
pub data Reply {ℓ} (T : Type ℓ) : Type ℓ where
  sent : Result (Unit {0}) (T × Error) → Reply T
  received : Result T Error → Reply T
  waits : Reply T
  done : Reply T

-- `peers_awake.fetch_sub(1) == 1`, and nobody sleeps that could wake this peer up.
abbrev pub is_deadlock : (peers_awake sleeping : ℕ) → Bool
is_deadlock peers_awake sleeping = (peers_awake == 1) && (sleeping == 0)

module _ {ℓ} {T : Type ℓ} where
  -- What the loop of `send_sync` does with a try.
  unfoldable pub send_tried : State T × Result (Unit {0}) (T × Error) → State T × Reply T
  send_tried ((p, selects), ok x) = (
    (record p { sleeping_senders = sub_usize p.sleeping_senders 1; sleep_mutex = false }, selects),
    sent (ok x),
  )
  send_tried ((p, selects), err (val, e)) =
      if is_deadlock p.peers_awake p.sleeping_receivers
      then (
        (
          record p {
            peers_awake = add_usize (sub_usize p.peers_awake 1) 1;
            sleeping_senders = sub_usize p.sleeping_senders 1;
            sleep_mutex = false;
          },
          selects,
        ),
        sent (err (val, deadlock)),
      )
      else (
        (record p { peers_awake = sub_usize p.peers_awake 1; sleep_mutex = false }, selects),
        waits,
      )

  -- What the loop of `recv_sync` does with a try.
  unfoldable pub recv_tried : Packet T × Result T Error → Packet T × Reply T
  recv_tried (p, ok x) = (
    record p { sleeping_receivers = sub_usize p.sleeping_receivers 1; sleep_mutex = false },
    received (ok x),
  )
  recv_tried (p, err e) =
      if is_deadlock p.peers_awake p.sleeping_senders
      then (
        record p {
          peers_awake = add_usize (sub_usize p.peers_awake 1) 1;
          sleeping_receivers = sub_usize p.sleeping_receivers 1;
          sleep_mutex = false;
        },
        received (err deadlock),
      )
      else (record p { peers_awake = sub_usize p.peers_awake 1; sleep_mutex = false }, waits)

  -- A round of the loop of `send_sync`, and of that of `recv_sync`.
  unfoldable pub send_round : Packet T → Selects → T → Option (State T × Reply T)
  unfolding send_tried Bounded.send_async
  send_round p selects val = Bounded.send_async p selects val true >>= λ out. some (send_tried out)

  unfoldable pub recv_round : Packet T → Option (Packet T × Reply T)
  unfolding recv_tried Bounded.recv_async
  recv_round p = Bounded.recv_async p true >>= λ out. some (recv_tried out)

  unfoldable pub step : State T → Turn T → Option (State T × Reply T)
  unfolding send_round recv_round Bounded.send_async Bounded.recv_async remove_peer
  step (p, selects) (Turn.send_async val) =
      Bounded.send_async p selects val false >>= λ (s, out). some (s, sent out)
  step (p, selects) Turn.recv_async =
      Bounded.recv_async p false >>= λ (p', out). some ((p', selects), received out)
  step (p, selects) Turn.clone = some ((add_peer p, selects), done)
  step (p, selects) Turn.drop = remove_peer p selects >>= λ s. some (s, done)
  step (p, selects) (Turn.send_lock val) =
      send_round
        (record p { sleeping_senders = add_usize p.sleeping_senders 1; sleep_mutex = true }) selects
        val
  step (p, selects) (Turn.send_wake val) =
      send_round (record p { peers_awake = add_usize p.peers_awake 1; sleep_mutex = true }) selects
        val
  step (p, selects) Turn.recv_lock =
      recv_round
        (record p { sleeping_receivers = add_usize p.sleeping_receivers 1; sleep_mutex = true })
      >>= λ (p', reply). some ((p', selects), reply)
  step (p, selects) Turn.recv_wake =
      recv_round (record p { peers_awake = add_usize p.peers_awake 1; sleep_mutex = true })
      >>= λ (p', reply). some ((p', selects), reply)
