-- ===== src/Slots/Reads.antt =====
-- What the read of a message does to the queue that the nodes stand for.
use comm.Prelude.{
  ℕ, suc, ◌+◌, ◌-◌, ◌%◌, ◌^◌, ◌<◌, ◌≡◌, ◌≢◌, inl, inr, refl, sym, ◌∙◌, ap, true, false, not, none,
  some, List, [], ◌∷◌, ◌>>=◌, arith, length, length-set, get_elem?, get_elem?-set_self,
  get_elem?-set_ne, set, bit_and, bit_and-mask, pow_pos, ◌==◌, if◌then◌else◌, add_usize, sub_usize,
  Bool-cases, ==_iff,
}
use comm.Ring.Laws.{place, place_ne}
use comm.Slots.{Node, Slots, negative, get_node, set_node, empty_out, can_read}
use comm.Slots.IsQueue.{
  IsQueue, node_of, node_at, node_lem, after, read_place, empty_diff, some_diff,
}
use comm.Slots.Moves.{past_end, node_of_wrap}
use native.Mathlib.Nat.{mod-lt, add-mod_right}

last_place : (r i c : ℕ) → i + 1 ≡ c → (r + 1 + i) % c ≡ r % c
last_place r i c e = ap (λ (t : ℕ). t % c) (omega (arith, e)) ∙ add-mod_right r c

shifted : (r i : ℕ) → (r + suc i) % 2 ^ 64 ≡ (add_usize r 1 + i) % 2 ^ 64
shifted r i = omega arith

behind :
    (r m i c : ℕ)
    → m ≡ c - 1
    → 0 < c
    → i + 1 ≡ c
    → add_usize (add_usize r m) 1 ≡ (add_usize r 1 + i) % 2 ^ 64
behind r m i c e p h = omega (arith, e, h)

module _ {ℓ} {T : Type ℓ} (k : ℕ) (s : Slots T) (x : T) (xs : List T)
    (q : IsQueue k s (x ∷ xs)) where
  abbrev emptied : Node T
  emptied = record { val = none; pos = add_usize (add_usize s.next_read s.cap_mask) 1 }

  at_lem : bit_and s.next_read s.cap_mask ≡ s.next_read % 2 ^ k
  at_lem = ap (bit_and s.next_read) q.mask ∙ bit_and-mask k s.next_read

  at_bound : s.next_read % 2 ^ k < length s.buf
  at_bound = omega (arith, mod-lt s.next_read (pow_pos k), q.size)

  apart : (i : ℕ) → i + 1 < 2 ^ k → s.next_read % 2 ^ k ≢ (s.next_read + suc i) % 2 ^ k
  apart i h e =
      place_ne (2 ^ k) s.next_read 0 (suc i) (omega arith) (omega arith)
        (sym e ∙ ap (λ (t : ℕ). t % 2 ^ k) (omega arith))

  emptied_at :
      (i : ℕ)
      → i < 2 ^ k
      → get_elem? (set s.buf (s.next_read % 2 ^ k) emptied) ((add_usize s.next_read 1 + i) % 2 ^ k)
        ≡ some (node_at (add_usize s.next_read 1) xs i)
  emptied_at i h =
      ap (get_elem? (set s.buf (s.next_read % 2 ^ k) emptied))
        (place k 64 (s.next_read + 1) i (omega (arith, q.fits)))
      ∙ elim (Bool-cases (i + 1 == 2 ^ k)) [
        | inl e ↦
            let full : i + 1 ≡ 2 ^ k = (==_iff (i + 1) (2 ^ k)).0 e in
            ap (get_elem? (set s.buf (s.next_read % 2 ^ k) emptied))
              (last_place s.next_read i (2 ^ k) full)
            ∙ get_elem?-set_self s.buf (s.next_read % 2 ^ k) emptied at_bound
            ∙ ap (λ p. some (record { val = none; pos = p }))
                (behind s.next_read s.cap_mask i (2 ^ k) q.mask (pow_pos k) full)
            ∙ ap (λ o. some (node_of o (add_usize s.next_read 1 + i)))
                (sym (past_end xs i (omega (arith, q.room, full))))
        | inr e ↦
            let inside : i + 1 < 2 ^ k = ground (arith, h, e) in
            ap (λ (t : ℕ). get_elem? (set s.buf (s.next_read % 2 ^ k) emptied) (t % 2 ^ k))
              (omega arith)
            ∙ get_elem?-set_ne s.buf (s.next_read % 2 ^ k) ((s.next_read + suc i) % 2 ^ k) emptied
                (apart i inside)
            ∙ q.nodes (suc i) (omega (arith, inside))
            ∙ ap some (
                node_of_wrap (get_elem? xs i) (s.next_read + suc i) (add_usize s.next_read 1 + i)
                  (shifted s.next_read i))
      ]

  -- A receive takes the first message out, and frees its node for the next round of the ring.
  pub empty_lem :
      (s' : Slots T) × (empty_out (after k s (x ∷ xs) q) s.next_read ≡ some (s', x))
      × IsQueue k s' xs
  unfolding empty_out set_node get_node
  empty_lem =
      let here = node_lem k s (x ∷ xs) q s.next_read 0 (pow_pos k) (read_place k s (x ∷ xs) q) in
      (
        set_node (after k s (x ∷ xs) q) s.next_read emptied,
        rw (here, ◌>>=◌) refl,
        record {
          two = q.two;
          fits = q.fits;
          mask = q.mask;
          size = length-set s.buf (bit_and s.next_read s.cap_mask) emptied ∙ q.size;
          range = omega arith;
          ends = omega (arith, q.ends);
          room = omega (arith, q.room);
          nodes = λ i h.
              ap (λ j. get_elem? (set s.buf j emptied) ((add_usize s.next_read 1 + i) % 2 ^ k))
                at_lem
              ∙ emptied_at i h;
        },
      )

module _ {ℓ} {T : Type ℓ} (k : ℕ) (s : Slots T) where
  some_left : (n : ℕ) → (suc n == 0) ≡ false
  some_left n = ground arith

  positive_diff : (d : ℕ) → d ≡ 0 → (if negative d then false else true) ≡ true
  positive_diff d e = ground arith

  -- There is something to read exactly when there is a message.
  pub can_read_lem :
      (items : List T) → IsQueue k s items → can_read s ≡ some (not (length items == 0))
  unfolding can_read
  can_read_lem [] q =
      let here = node_lem k s [] q s.next_read 0 (pow_pos k) (read_place k s [] q) in
      let opened : can_read s
          ≡ some (
              if negative (sub_usize (sub_usize ((s.next_read + 0) % 2 ^ 64) 1) s.next_read)
              then false
              else true) =
        rw (here, ◌>>=◌) refl in
      opened ∙ ap (λ b. some (if b then false else true)) (empty_diff s.next_read q.range)
  can_read_lem (x ∷ xs) q =
      let here = node_lem k s (x ∷ xs) q s.next_read 0 (pow_pos k) (read_place k s (x ∷ xs) q) in
      let opened : can_read s
          ≡ some (
              if negative (sub_usize (sub_usize ((s.next_read + 0 + 1) % 2 ^ 64) 1) s.next_read)
              then false
              else true) =
        rw (here, ◌>>=◌) refl in
      opened
      ∙ ap some
          (positive_diff _ (some_diff s.next_read q.range) ∙ sym (ap not (some_left (length xs))))
