-- ===== src/Mpmc/Bounded/Models.antt =====
-- How a packet of the bounded MPMC channel stands for a queue of messages, and its two words of positions.
use comm.Prelude.{
  Bool, ℕ, ◌+◌, ◌-◌, ◌*◌, ◌/◌, ◌%◌, ◌^◌, ◌≤◌, ◌<◌, ◌≡◌, refl, ◌∙◌, ap, List, [], ◌∷◌, ◌++◌, length,
  arith, ◌==◌, if◌then◌else◌, bit_or, bit_or-low, bit_or-high, bit_or-halves, pow_pos, Result, ok,
  err, Error, full, empty, usize_mod,
}
use comm.Ring.Laws.{Holds}
use comm.Select.Inner.Laws.{IsAddress}
use comm.Select.Watch.Laws.{IsConsistent}
use comm.Mpmc.Bounded.{Packet, decompose_pointer, compose_pointer, add_half, sub_half}
use native.Mathlib.Nat.{pow-le-pow_right}

-- The send and the receive of a queue of `cap` places.
module _ {ℓ} {T : Type ℓ} where
  unfoldable pub put : (cap : ℕ) → List T → T → List T × Result (Unit {0}) (T × Error)
  put cap items val =
      if length items == cap then (items, err (val, full)) else (items ++ (val ∷ []), ok tt)

  unfoldable pub get : List T → List T × Result T Error
  get [] = ([], err empty)
  get (x ∷ xs) = (xs, ok x)

-- The packet `p`, of capacity `2 ^ k`, stands for the queue of `items`, the first at position `first`.
pub record Models {ℓ} {T : Type ℓ} (k : ℕ) (p : Packet T) (items : List T) : Type ℓ where
  pub first : ℕ
  pub fits : k ≤ 31
  pub mask : p.cap_mask ≡ 2 ^ k - 1
  pub size : length p.buf ≡ 2 ^ k
  pub range : first < 2 ^ 32
  pub starts : decompose_pointer p.read_start_next_write ≡ (first, (first + length items) % 2 ^ 32)
  pub ends : decompose_pointer p.write_end_next_read ≡ ((first + length items) % 2 ^ 32, first)
  pub room : length items ≤ 2 ^ k
  pub holds : Holds k p.buf first items
  pub hint : IsConsistent p.watch
  pub address : IsAddress p.watch.queue.id

no_overflow : (higher : ℕ) → higher < 2 ^ 32 → higher * 2 ^ 32 % usize_mod ≡ higher * 2 ^ 32
no_overflow higher h = omega arith

pub decompose-compose :
    (lower higher : ℕ)
    → lower < 2 ^ 32
    → higher < 2 ^ 32
    → decompose_pointer (compose_pointer lower higher) ≡ (lower, higher)
unfolding decompose_pointer compose_pointer
decompose-compose lower higher l h =
    rw (no_overflow higher h, bit_or-low lower higher l h, bit_or-high lower higher l h) refl

compose-decompose :
    (val : ℕ)
    → val < 2 ^ 64
    → compose_pointer (decompose_pointer val).0 (decompose_pointer val).1 ≡ val
unfolding decompose_pointer compose_pointer
compose-decompose val v =
    let e : val / 2 ^ 32 % 2 ^ 32 * 2 ^ 32 % usize_mod ≡ val / 2 ^ 32 * 2 ^ 32 = omega arith in
    ap (bit_or (val % 2 ^ 32)) e ∙ bit_or-halves val

-- Two positions of 32 bits that are put in one word come out of it again, and a word of 64 bits that is
-- taken apart and put together is the same.
pub pointer_halves :
    (lower higher val : ℕ)
    → lower < 2 ^ 32
    → higher < 2 ^ 32
    → val < 2 ^ 64
    → (decompose_pointer (compose_pointer lower higher) ≡ (lower, higher))
      × (compose_pointer (decompose_pointer val).0 (decompose_pointer val).1 ≡ val)
pointer_halves lower higher val l h v =
    (decompose-compose lower higher l h, compose-decompose val v)

module _ (k r n : ℕ) (fits : k ≤ 31) (range : r < 2 ^ 32) (room : n ≤ 2 ^ k) where
  bound : 2 ^ k ≤ 2 ^ 31
  bound = pow-le-pow_right {n = 2} (omega arith) fits

  pub difference : sub_half ((r + n) % 2 ^ 32) r ≡ n
  difference = omega (arith, bound)

  capacity : add_half (2 ^ k - 1) 1 ≡ 2 ^ k
  capacity = omega (arith, bound, pow_pos k)

  -- `next_write - read_start == cap_mask + 1`
  pub full_half : (sub_half ((r + n) % 2 ^ 32) r == add_half (2 ^ k - 1) 1) ≡ (n == 2 ^ k)
  full_half = ap (λ d. d == add_half (2 ^ k - 1) 1) difference ∙ ap (λ c. n == c) capacity

  -- `write_end == next_read`
  pub empty_half : ((r + n) % 2 ^ 32 == r) ≡ (n == 0)
  empty_half = ground (arith, bound)

-- The condvars are not part of what a packet stands for.
pub Models-condvars {ℓ} :
    {T : Type ℓ} {k : ℕ} {p : Packet T} {items : List T} (sends recvs : ℕ)
    → Models k p items
    → Models k (record p { send_condvar = sends; recv_condvar = recvs }) items
Models-condvars sends recvs m = record {
  first = m.first;
  fits = m.fits;
  mask = m.mask;
  size = m.size;
  range = m.range;
  starts = m.starts;
  ends = m.ends;
  room = m.room;
  holds = m.holds;
  hint = m.hint;
  address = m.address;
}

-- Nor are the counts of peers and the mutex.
pub Models-counts {ℓ} :
    {T : Type ℓ} {k : ℕ} {p : Packet T} {items : List T} (peers senders receivers : ℕ)
    (mutex : Bool)
    → Models k p items
    → Models k
        (record p {
          peers_awake = peers;
          sleeping_senders = senders;
          sleeping_receivers = receivers;
          sleep_mutex = mutex;
        })
        items
Models-counts peers senders receivers mutex m = record {
  first = m.first;
  fits = m.fits;
  mask = m.mask;
  size = m.size;
  range = m.range;
  starts = m.starts;
  ends = m.ends;
  room = m.room;
  holds = m.holds;
  hint = m.hint;
  address = m.address;
}

-- The counts of peers and the mutex are the same.
pub record SameCounts {ℓ} {T : Type ℓ} (p q : Packet T) : Type ℓ where
  pub awake : q.peers_awake ≡ p.peers_awake
  pub senders : q.sleeping_senders ≡ p.sleeping_senders
  pub receivers : q.sleeping_receivers ≡ p.sleeping_receivers
  pub mutex : q.sleep_mutex ≡ p.sleep_mutex

pub same_counts {ℓ} : {T : Type ℓ} (p : Packet T) → SameCounts p p
same_counts p = record { awake = refl; senders = refl; receivers = refl; mutex = refl }
