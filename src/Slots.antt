-- ===== src/Slots.antt =====
-- The buffer of src/mpsc/bounded_fast/imp.rs and src/spmc/bounded_fast/imp.rs: nodes that carry the position
-- at which they are next written or read, between the two ends `next_write` and `next_read`.
-- `none` is a fault: an access out of bounds, a read of a node that holds no message, a failed `assert!`, or,
-- with no other call under way, a loop that spins for ever.
pub mod IsQueue
pub mod Making
pub mod Moves
pub mod Reads
pub mod Sample
use comm.Prelude.{
  ℕ, ◌+◌, ◌-◌, ◌^◌, Bool, true, false, Option, none, some, List, ◌>>=◌, get_elem?, set, leb,
  bit_and, if◌then◌else◌, ◌==◌, add_usize, sub_usize,
}

-- `val` is raw memory: it holds a message, or nothing that may be read.
pub record Node {ℓ} (T : Type ℓ) : Type ℓ where
  pub val : Option T
  pub pos : ℕ

pub record Slots {ℓ} (T : Type ℓ) : Type ℓ where
  pub buf : List (Node T)
  pub cap_mask : ℕ
  pub next_write : ℕ
  pub next_read : ℕ

-- `diff < 0` for a difference that wraps, read as an `isize`.
abbrev pub negative : ℕ → Bool
negative diff = leb (2 ^ 63) diff

module _ {ℓ} {T : Type ℓ} where
  unfoldable pub get_node : Slots T → (pos : ℕ) → Option (Node T)
  get_node s pos = get_elem? s.buf (bit_and pos s.cap_mask)

  -- A store to the node of `pos`.
  unfoldable pub set_node : Slots T → (pos : ℕ) → Node T → Slots T
  set_node s pos node = record s { buf = set s.buf (bit_and pos s.cap_mask) node }

  -- What the two ends do with the difference of positions that they find at `at`.
  unfoldable pub claim : Slots T → (diff at : ℕ) → Slots T → Option (Slots T × Option ℕ)
  claim s diff at taken =
      if negative diff then some (s, none) else if diff == 0 then some (taken, some at) else none

  -- A position to write to if the queue is not full.
  unfoldable pub get_write_pos : Slots T → Option (Slots T × Option ℕ)
  unfolding get_node claim
  get_write_pos s = get_node s s.next_write >>= λ node.
      claim s (sub_usize node.pos s.next_write) s.next_write
        (record s { next_write = add_usize s.next_write 1 })

  -- The message is stored, and the position of the node then.
  unfoldable pub fill : Slots T → (write_pos : ℕ) → T → Option (Slots T)
  unfolding get_node set_node
  fill s write_pos val = get_node s write_pos >>= λ node.
      some (set_node s write_pos (record { val = some val; pos = add_usize write_pos 1 }))

  -- A position to read from if the queue is not empty.
  unfoldable pub get_read_pos : Slots T → Option (Slots T × Option ℕ)
  unfolding get_node claim
  get_read_pos s = get_node s s.next_read >>= λ node.
      claim s (sub_usize (sub_usize node.pos 1) s.next_read) s.next_read
        (record s { next_read = add_usize s.next_read 1 })

  -- The message is read, and the position of the node stored then.
  unfoldable pub empty_out : Slots T → (read_pos : ℕ) → Option (Slots T × T)
  unfolding get_node set_node
  empty_out s read_pos = get_node s read_pos >>= λ node. node.val >>= λ val. some (
    set_node s read_pos (record { val = none; pos = add_usize (add_usize read_pos s.cap_mask) 1 }),
    val,
  )

  -- The message to be read next, if there is one: `diff >= 0`.
  unfoldable pub can_read : Slots T → Option Bool
  unfolding get_node
  can_read s = get_node s s.next_read >>= λ node.
      some (if negative (sub_usize (sub_usize node.pos 1) s.next_read) then false else true)
