-- ===== src/Ring.antt =====
-- The message buffer of the bounded channels: raw memory of `cap_mask + 1` places, a power of two,
-- at positions that count up modulo a machine word. A place holds `some` message or nothing.
-- `none` is a fault: an access out of bounds, or a read of a place that holds no message.
pub mod Laws
pub mod Positions
use comm.Prelude.{
  ℕ, ◌%◌, ◌^◌, Option, none, some, List, ◌>>=◌, length, get_elem?, set, ltb, if◌then◌else◌, bit_and,
  flatten,
}

module _ {ℓ} {T : Type ℓ} where
  -- `ptr::read(buf.offset(pos & cap_mask))`. The message moves out, and the place is left empty.
  unfoldable pub read : List (Option T) → (cap_mask pos : ℕ) → Option (T × List (Option T))
  read buf cap_mask pos = flatten (get_elem? buf (bit_and pos cap_mask)) >>= λ val.
      some (val, set buf (bit_and pos cap_mask) none)

  -- `ptr::write(buf.offset(pos & cap_mask), val)`
  unfoldable pub write : List (Option T) → (cap_mask pos : ℕ) → T → Option (List (Option T))
  write buf cap_mask pos val =
      if ltb (bit_and pos cap_mask) (length buf)
      then some (set buf (bit_and pos cap_mask) (some val))
      else none
