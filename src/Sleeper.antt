-- ===== src/Sleeper.antt =====
-- The thread that sleeps on a channel: the fields `have_sleeping`, `sleeping_mutex` and
-- `sleeping_condvar`, which the unbounded channels of src/spsc and src/mpsc have alike.
use comm.Prelude.{
  ℕ, ◌+◌, ◌≡◌, refl, Bool, true, false, Option, none, some, if◌then◌else◌, Bool-cases, inl, inr,
}

-- `condvar` counts the calls of `notify_one`.
pub record Sleeper : Type 0 where
  pub have_sleeping : Bool
  pub mutex : Bool
  pub condvar : ℕ

abbrev pub new : Sleeper
new = record { have_sleeping = false; mutex = false; condvar = 0 }

-- `none` is a thread that locks the mutex that it holds.
unfoldable pub notify_sleeping : Sleeper → Option Sleeper
notify_sleeping s =
    if s.have_sleeping
    then (if s.mutex then none else some (record s { condvar = s.condvar + 1 }))
    else some s

-- What a blocking call does before its loop, at a wait, when it wakes up, and at its end.
abbrev pub enter : Sleeper → Sleeper
enter s = record s { have_sleeping = true; mutex = true }

abbrev pub sleep : Sleeper → Sleeper
sleep s = record s { mutex = false }

abbrev pub wake : Sleeper → Sleeper
wake s = record s { mutex = true }

abbrev pub leave : Sleeper → Sleeper
leave s = record s { have_sleeping = false; mutex = false }

-- The sleeper after a notification.
abbrev pub notified : Sleeper → Sleeper
notified s = record s { condvar = if s.have_sleeping then s.condvar + 1 else s.condvar }

pub notify_sleeping_free : (s : Sleeper) → s.mutex ≡ false → notify_sleeping s ≡ some (notified s)
unfolding notify_sleeping
notify_sleeping_free s e = elim (Bool-cases s.have_sleeping) [
  | inr awake ↦ rw awake refl
  | inl asleep ↦ rw (asleep, e) refl
]
