-- ===== src/Mpmc/Bounded/Drop.antt =====
-- `drop` and `ready` of the bounded MPMC channel.
use comm.Prelude.{
  ℕ, ◌+◌, ◌%◌, ◌^◌, ◌≤◌, ◌<◌, ◌-◌, ◌≡◌, refl, subst, ◌∙◌, ap, some, List, [], ◌∷◌, ◌>>=◌, arith,
  length, ◌==◌, ◌!=◌, not, if◌then◌else◌, true,
}
use comm.Ring
use comm.Ring.Laws.{Holds, read_lem}
use comm.Mpmc.Bounded.{Packet, add_half, sub_half, drop_loop, drop, ready}
use comm.Mpmc.Bounded.Models.{Models, difference, empty_half}

next_half : (r i : ℕ) → (add_half r i + 1) % 2 ^ 32 ≡ add_half r (i + 1)
next_half r i = omega arith

same_half : (r : ℕ) → r < 2 ^ 32 → r ≡ add_half r 0
same_half r h = omega arith

differs : (a b : ℕ) → (a != b) ≡ not (a == b)
differs a b = ground arith

module _ {ℓ} {T : Type ℓ} (k r : ℕ) (fits : k ≤ 32) where
  drop_loop_lem :
      (xs : List T) (i : ℕ) (p : Packet T)
      → p.cap_mask ≡ 2 ^ k - 1
      → length p.buf ≡ 2 ^ k
      → length xs ≤ 2 ^ k
      → Holds k p.buf (add_half r i) xs
      → (p' : Packet T) × (drop_loop r i (length xs) p ≡ some (p', xs))
  unfolding drop_loop
  drop_loop_lem [] i p mask size room holds = (p, refl)
  drop_loop_lem (x ∷ xs) i p mask size room holds =
      let (buf, got, size', holds') =
        read_lem k 32 fits p.buf (add_half r i) x xs size room holds in
      let read : Ring.read p.buf p.cap_mask (add_half r i) ≡ some (x, buf) = rw mask got in
      let (p', done) =
        drop_loop_lem xs (i + 1) (record p { buf = buf }) mask size' (omega (arith, room))
          (subst (λ n. Holds k buf n xs) (next_half r i) holds') in
      (p', rw (read, ◌>>=◌, done, ◌>>=◌) refl)

module _ {ℓ} {T : Type ℓ} (k : ℕ) (p : Packet T) (items : List T) (m : Models k p items) where
  -- Of a packet that stands for a queue, `drop` does not fault, and destroys the messages that are left,
  -- each once and in order.
  pub mpmc_drop_lem : (p' : Packet T) × (drop p ≡ some (p', items))
  unfolding drop
  mpmc_drop_lem =
      let (p', done) =
        drop_loop_lem k m.first (omega (arith, m.fits)) items 0 p m.mask m.size m.room
          (subst (λ n. Holds k p.buf n items) (same_half m.first m.range) m.holds) in
      (
        p',
        ap (λ d. drop_loop d.1 0 (sub_half d.0 d.1) p) m.ends
            ∙ ap (λ n. drop_loop m.first 0 n p)
                (difference k m.first (length items) m.fits m.range m.room)
            ∙ done,
      )

  -- A packet that stands for a queue is ready exactly when it has a message, or no peer is awake.
  pub mpmc_ready_lem : ready p ≡ (if p.peers_awake == 0 then true else not (length items == 0))
  unfolding ready
  mpmc_ready_lem =
      ap (λ d. if p.peers_awake == 0 then true else d.0 != d.1) m.ends
      ∙ ap (λ b. if p.peers_awake == 0 then true else b)
          (differs ((m.first + length items) % 2 ^ 32) m.first)
      ∙ ap (λ b. if p.peers_awake == 0 then true else not b)
          (empty_half k m.first (length items) m.fits m.range m.room)
