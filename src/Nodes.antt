-- ===== src/Nodes.antt =====
-- The linked nodes of the unbounded channels: src/spsc/unbounded/imp.rs, src/mpsc/unbounded/imp.rs and
-- src/spmc/unbounded/imp.rs have the same `Node`, and the same steps on both ends of the list.
-- `none` is a fault: an access to an address that holds no node, or an `unwrap` of nothing.
pub mod Linked
pub mod Queue
pub mod Messages
pub mod Above
use comm.Prelude.{
  false, ◌==◌, ℕ, Bool, Option, none, some, List, [], ◌>>=◌, is_some, ◌≡◌, Map, lookup, insert_key,
  remove_key,
}

abbrev pub null : ℕ
null = 0

pub record Node {ℓ} (T : Type ℓ) : Type ℓ where
  pub next : Option ℕ
  pub val : Option T

abbrev pub blank {ℓ} : {T : Type ℓ} → Node T
blank = record { next = none; val = none }

-- The fields `read_end` and `write_end` of a packet, with the heap that they point into.
pub record Ends {ℓ} (T : Type ℓ) : Type ℓ where
  pub heap : Map (Node T)
  pub read_end : ℕ
  pub write_end : ℕ

module _ {ℓ} {T : Type ℓ} where
  -- An allocator gives an address that is not in use, and not null.
  abbrev pub IsFresh : (Map (Node T) → ℕ) → Type ℓ
  IsFresh alloc =
      (heap : Map (Node T)) → (lookup (alloc heap) heap ≡ none) × ((alloc heap == null) ≡ false)

  -- `&mut *write_end` with its two fields stored to, the value first.
  unfoldable pub publish : Ends T → (write_end new_end : ℕ) → T → Option (Ends T)
  publish e write_end new_end val = lookup write_end e.heap >>= λ node. some (record e {
    heap = insert_key write_end (record { next = some new_end; val = some val }) e.heap;
  })

  -- The nodes of `recv_async`: the next message, or `none` if there is none. The node that it leaves is
  -- freed.
  unfoldable pub take : Ends T → Option (Ends T × Option T)
  take e = lookup e.read_end e.heap >>= λ node. elim node.next [
    | none ↦ some (e, none)
    | some next ↦ node.val >>= λ val.
        some (record e { heap = remove_key e.read_end e.heap; read_end = next }, some val)
  ]

  -- `!read_end.next.load().is_null()`
  unfoldable pub has_next : Ends T → Option Bool
  has_next e = lookup e.read_end e.heap >>= λ node. some (is_some node.next)

  module _ (alloc : Map (Node T) → ℕ) where
    -- `Node::new()`
    unfoldable pub new_node : Map (Node T) → Map (Node T) × ℕ
    new_node heap = (insert_key (alloc heap) blank heap, alloc heap)

    -- The nodes of `new`, on an empty heap.
    unfoldable pub new : Ends T
    unfolding new_node
    new = let (heap, ptr) = new_node [] in record { heap = heap; read_end = ptr; write_end = ptr }

    -- The nodes of a send by the only sender: the old end is filled, and `write_end` set at last.
    unfoldable pub append : Ends T → T → Option (Ends T)
    unfolding new_node publish
    append e val =
        let (heap, new_end) = new_node e.heap in
        publish (record e { heap = heap }) e.write_end new_end val >>= λ e'.
        some (record e' { write_end = new_end })

    -- `write_end.swap(new_end)` of a send by one of many, and the old and the new end.
    unfoldable pub reserve : Ends T → Ends T × ℕ × ℕ
    unfolding new_node
    reserve e =
        let (heap, new_end) = new_node e.heap in
        (record e { heap = heap; write_end = new_end }, e.write_end, new_end)
