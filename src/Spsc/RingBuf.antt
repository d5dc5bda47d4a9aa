-- ===== src/Spsc/RingBuf.antt =====
-- src/spsc/ring_buf/imp.rs: the channel whose sender overwrites the oldest message when it is full.
-- The packet has the fields of that of src/spsc/bounded/imp.rs, and its type is shared here.
pub mod Room
pub mod Send
mod Tests
use comm.Prelude.{
  ℕ, zero, suc, ◌+◌, Bool, true, false, not, Option, none, some, List, [], ◌∷◌, ◌>>=◌, ◌==◌, ◌!=◌,
  if◌then◌else◌, add_usize, sub_usize, Result, ok, err, Error, disconnected, empty,
}
use comm.Ring
use comm.Select.WaitQueue.{Selects}
use comm.Spsc.Bounded.{Packet, notify_sleeping, notify_wait_queue}

module _ {ℓ} {T : Type ℓ} where
  -- No send comes between the load of the positions and the compare-and-swap, which then succeeds in
  -- the first round of the loop.
  unfoldable pub recv_async : Packet T → Option (Packet T × Result T Error)
  recv_async p =
      if p.write_pos == p.read_pos
      then some (p, err (if p.sender_disconnected then disconnected else empty))
      else (Ring.read p.buf p.cap_mask p.read_pos >>= λ (val, buf).
          some (record p { buf = buf; read_pos = add_usize p.read_pos 1 }, ok val))

  -- `n` calls of the receiver.
  unfoldable pub recvs : ℕ → Packet T → Option (Packet T × List (Result T Error))
  unfolding recv_async
  recvs zero p = some (p, [])
  recvs (suc n) p =
      recv_async p >>= λ (p', out). recvs n p' >>= λ (p'', outs). some (p'', out ∷ outs)

  -- The compare-and-swap of `send`, with the positions that it has loaded, and the message that it
  -- takes out. `none` in its place is a buffer with room, or a receiver that was faster.
  unfoldable pub make_room : (write_pos read_pos : ℕ) → Packet T → Option (Packet T × Option T)
  make_room write_pos read_pos p =
      if sub_usize write_pos read_pos != p.cap_mask + 1
      then some (p, none)
      else if p.read_pos == read_pos
      then (Ring.read p.buf p.cap_mask read_pos >>= λ (val, buf).
          some (record p { buf = buf; read_pos = add_usize read_pos 1 }, some val))
      else some (p, none)

  -- `between` calls of the receiver come between the load of the positions and the compare-and-swap.
  unfoldable pub send :
      Packet T
      → Selects
      → T
      → (between : ℕ)
      → Option (Packet T × Selects × List (Result T Error) × Result (Option T) (T × Error))
  unfolding recvs make_room notify_sleeping notify_wait_queue
  send p selects val between =
      if p.receiver_disconnected
      then some (p, selects, [], err (val, disconnected))
      else (recvs between p >>= λ (q, outs). make_room p.write_pos p.read_pos q >>= λ (r, old).
          Ring.write r.buf r.cap_mask p.write_pos val >>= λ buf.
          notify_sleeping (record r { buf = buf; write_pos = add_usize p.write_pos 1 }) false
          >>= λ s.
              notify_wait_queue s selects >>= λ (s', selects'). some (s', selects', outs, ok old))
