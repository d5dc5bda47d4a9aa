-- ===== src/Channel.antt =====
-- What a channel promises, whatever its kind: a queue of messages between two ends.
pub mod Calls
pub mod Peers
pub mod Ends
use comm.Prelude.{
  ℕ, Bool, true, false, List, [], ◌∷◌, ◌++◌, length, ◌≡◌, arith, ◌==◌, if◌then◌else◌, Result, ok,
  err, Error, disconnected, full, empty,
}

-- `sender_gone`: the last sender has been dropped; `receiver_gone`: the last receiver has.
pub record Chan {ℓ} (T : Type ℓ) : Type ℓ where
  pub items : List T
  pub sender_gone : Bool
  pub receiver_gone : Bool

module _ {ℓ} {T : Type ℓ} where
  abbrev pub push : Chan T → T → Chan T
  push c val = record c { items = c.items ++ (val ∷ []) }

  -- A send never takes the message when it fails. `cap` is the number of messages that fit.
  unfoldable pub send : ℕ → Chan T → T → Chan T × Result (Unit {0}) (T × Error)
  send cap c val =
      if c.receiver_gone
      then (c, err (val, disconnected))
      else if length c.items == cap
      then (c, err (val, full))
      else (push c val, ok tt)

  -- The same with no bound.
  unfoldable pub send_unbounded : Chan T → T → Chan T × Result (Unit {0}) (T × Error)
  send_unbounded c val =
      if c.receiver_gone then (c, err (val, disconnected)) else (push c val, ok tt)

  abbrev pub recv_items : Chan T → List T → Chan T × Result T Error
  recv_items c [] = (c, err (if c.sender_gone then disconnected else empty))
  recv_items c (x ∷ xs) = (record c { items = xs }, ok x)

  -- Messages come out in the order in which they went in, also after the sender has gone.
  unfoldable pub recv : Chan T → Chan T × Result T Error
  recv c = recv_items c c.items

  pub send_gone :
      (cap : ℕ) (c : Chan T) (val : T)
      → c.receiver_gone ≡ true
      → send cap c val ≡ (c, err (val, disconnected))
  unfolding send
  send_gone cap c val e = simp e

  pub send_full :
      (cap : ℕ) (c : Chan T) (val : T)
      → c.receiver_gone ≡ false
      → (length c.items == cap) ≡ true
      → send cap c val ≡ (c, err (val, full))
  unfolding send
  send_full cap c val e f = simp (e, f)

  pub send_room :
      (cap : ℕ) (c : Chan T) (val : T)
      → c.receiver_gone ≡ false
      → (length c.items == cap) ≡ false
      → send cap c val ≡ (push c val, ok tt)
  unfolding send
  send_room cap c val e f = ground (arith, e, f)
