-- ===== src/Select/Watch.antt =====
-- The part that every channel of src/ but `one_space` has alike: `wait_queue_used` and `wait_queue`.
-- The other channels have the same text as src/spsc/bounded/imp.rs.
pub mod Laws
use comm.Prelude.{ℕ, Bool, true, false, Option, none, some, ◌>>=◌, ltb, ◌==◌, if◌then◌else◌}
use comm.Select.WaitQueue
use comm.Select.WaitQueue.{WaitQueue, Selects}

-- `used` is the hint that spares a sender the lock of the queue while nobody selects.
pub record Watch : Type 0 where
  pub used : Bool
  pub queue : WaitQueue

abbrev pub new : Watch
new = record { used = false; queue = WaitQueue.new }

abbrev pub set_id : Watch → ℕ → Watch
set_id w id = record w { queue = WaitQueue.set_id w.queue id }

unfoldable pub notify_wait_queue : Watch → Selects → Option (Watch × Selects)
notify_wait_queue w selects =
    if w.used
    then (WaitQueue.notify w.queue selects >>= λ (queue, selects', left).
        some (record { used = if left == 0 then false else w.used; queue = queue }, selects'))
    else some (w, selects)

unfoldable pub register : Watch → ℕ → Watch
unfolding WaitQueue.add
register w load =
    let (queue, n) = WaitQueue.add w.queue load in
    record { used = if ltb 0 n then true else w.used; queue = queue }

unfoldable pub unregister : Watch → ℕ → Option Watch
unfolding WaitQueue.remove
unregister w id = WaitQueue.remove w.queue id >>= λ (queue, n).
    some (record { used = if n == 0 then false else w.used; queue = queue })
