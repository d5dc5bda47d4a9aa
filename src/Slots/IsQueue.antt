-- ===== src/Slots/IsQueue.antt =====
-- How the nodes of a buffer stand for a queue, and the two steps of a send and of a receive.
use comm.Prelude.{
  ℕ, ◌+◌, ◌-◌, ◌%◌, ◌^◌, ◌≤◌, ◌<◌, ◌≡◌, refl, sym, ◌∙◌, ap, true, Option, none, some, List, [], ◌∷◌,
  ◌>>=◌, arith, length, get_elem?, get_elem?-total, bit_and, bit_and-mask, pow_pos, if_true,
  add_usize, sub_usize,
}
use comm.Ring.Laws.{place}
use comm.Slots.{Node, Slots, negative, get_node, claim, get_write_pos, get_read_pos}
use native.Mathlib.Nat.{pow-le-pow_right, add-mod_right}

module _ {ℓ} {T : Type ℓ} where
  -- The node at position `p`, with a message or free.
  abbrev pub node_of : Option T → ℕ → Node T
  node_of none p = record { val = none; pos = p % 2 ^ 64 }
  node_of (some x) p = record { val = some x; pos = (p + 1) % 2 ^ 64 }

  -- The `i`-th node from the position `r` on, where the first messages are `items`.
  abbrev pub node_at : ℕ → List T → ℕ → Node T
  node_at r items i = node_of (get_elem? items i) (r + i)

-- The buffer of `2 ^ k` nodes stands for the queue of `items`.
pub record IsQueue {ℓ} {T : Type ℓ} (k : ℕ) (s : Slots T) (items : List T) : Type ℓ where
  pub two : 1 ≤ k
  pub fits : k ≤ 62
  pub mask : s.cap_mask ≡ 2 ^ k - 1
  pub size : length s.buf ≡ 2 ^ k
  pub range : s.next_read < 2 ^ 64
  pub ends : s.next_write ≡ (s.next_read + length items) % 2 ^ 64
  pub room : length items ≤ 2 ^ k
  pub nodes :
      (i : ℕ)
      → i < 2 ^ k
      → get_elem? s.buf ((s.next_read + i) % 2 ^ k) ≡ some (node_at s.next_read items i)

most : (k : ℕ) → k ≤ 62 → 2 ^ k ≤ 2 ^ 62
most k fits = pow-le-pow_right {n = 2} (omega arith) fits

least : (k : ℕ) → 1 ≤ k → 2 ≤ 2 ^ k
least k h = pow-le-pow_right {n = 2} (omega arith) h

full_diff :
    (r n c : ℕ)
    → r < 2 ^ 64
    → 2 ≤ c
    → c ≤ 2 ^ 62
    → n ≡ c
    → negative (sub_usize ((r + 0 + 1) % 2 ^ 64) ((r + n) % 2 ^ 64)) ≡ true
full_diff r n c a b d e = ground arith

same_diff : (p : ℕ) → sub_usize (p % 2 ^ 64) (p % 2 ^ 64) ≡ 0
same_diff p = omega arith

pub empty_diff :
    (r : ℕ) → r < 2 ^ 64 → negative (sub_usize (sub_usize ((r + 0) % 2 ^ 64) 1) r) ≡ true
empty_diff r h = ground arith

pub some_diff : (r : ℕ) → r < 2 ^ 64 → sub_usize (sub_usize ((r + 0 + 1) % 2 ^ 64) 1) r ≡ 0
some_diff r h = omega arith

module _ {ℓ} {T : Type ℓ} where
  claim_free : (s t : Slots T) (diff at : ℕ) → diff ≡ 0 → claim s diff at t ≡ some (t, some at)
  unfolding claim
  claim_free s t diff at e = rw e refl

  claim_busy :
      (s t : Slots T) (diff at : ℕ) → negative diff ≡ true → claim s diff at t ≡ some (s, none)
  unfolding claim
  claim_busy s t diff at e = if_true _ _ e

  pub beyond : (xs : List T) → get_elem? xs (length xs) ≡ none
  beyond [] = refl
  beyond (x ∷ xs) = beyond xs

module _ {ℓ} {T : Type ℓ} (k : ℕ) (s : Slots T) (items : List T) (q : IsQueue k s items) where
  -- The node of a position of which the place is known.
  pub node_lem :
      (p i : ℕ)
      → i < 2 ^ k
      → p % 2 ^ k ≡ (s.next_read + i) % 2 ^ k
      → get_node s p ≡ some (node_at s.next_read items i)
  unfolding get_node
  node_lem p i lt e =
      ap (λ m. get_elem? s.buf (bit_and p m)) q.mask
      ∙ ap (get_elem? s.buf) (bit_and-mask k p ∙ e)
      ∙ q.nodes i lt

  abbrev pub next : Slots T
  next = record s { next_write = add_usize s.next_write 1 }

  abbrev pub after : Slots T
  after = record s { next_read = add_usize s.next_read 1 }

  wrap : (p : ℕ) → p % 2 ^ 64 % 2 ^ k ≡ p % 2 ^ k
  wrap p =
      ap (λ (t : ℕ). t % 2 ^ k) (plus_zero (p % 2 ^ 64))
      ∙ place k 64 p 0 (omega (arith, q.fits))
      ∙ ap (λ (t : ℕ). t % 2 ^ k) (sym (plus_zero p))
    where
      plus_zero : (a : ℕ) → a ≡ a + 0
      plus_zero a = omega arith

  pub write_place : s.next_write % 2 ^ k ≡ (s.next_read + length items) % 2 ^ k
  write_place = ap (λ (t : ℕ). t % 2 ^ k) q.ends ∙ wrap (s.next_read + length items)

  pub read_place : s.next_read % 2 ^ k ≡ (s.next_read + 0) % 2 ^ k
  read_place = ap (λ (t : ℕ). t % 2 ^ k) (omega arith)

  pub write_full : length items ≡ 2 ^ k → get_write_pos s ≡ some (s, none)
  unfolding get_write_pos
  write_full e =
      let (x, f) = get_elem?-total items 0 (omega (arith, e, pow_pos k)) in
      let back : (s.next_read + length items) % 2 ^ k ≡ (s.next_read + 0) % 2 ^ k =
        ap (λ n. (s.next_read + n) % 2 ^ k) e ∙ add-mod_right s.next_read (2 ^ k) ∙ read_place in
      let here : get_node s s.next_write ≡ some (node_of (some x) (s.next_read + 0)) =
        node_lem s.next_write 0 (pow_pos k) (write_place ∙ back)
        ∙ ap (λ o. some (node_of o (s.next_read + 0))) f in
      let opened : get_write_pos s
          ≡ claim s (sub_usize ((s.next_read + 0 + 1) % 2 ^ 64) s.next_write) s.next_write next =
        rw (here, ◌>>=◌) refl in
      opened
      ∙ claim_busy s next _ s.next_write (
          ap (λ w. negative (sub_usize ((s.next_read + 0 + 1) % 2 ^ 64) w)) q.ends
          ∙ full_diff s.next_read (length items) (2 ^ k) q.range (least k q.two) (most k q.fits) e)

  pub write_room : length items < 2 ^ k → get_write_pos s ≡ some (next, some s.next_write)
  unfolding get_write_pos
  write_room lt =
      let here : get_node s s.next_write ≡ some (node_of none (s.next_read + length items)) =
        node_lem s.next_write (length items) lt write_place
        ∙ ap (λ o. some (node_of o (s.next_read + length items))) (beyond items) in
      let opened : get_write_pos s
          ≡ claim s (sub_usize ((s.next_read + length items) % 2 ^ 64) s.next_write) s.next_write
              next =
        rw (here, ◌>>=◌) refl in
      opened
      ∙ claim_free s next _ s.next_write (
          ap (λ w. sub_usize ((s.next_read + length items) % 2 ^ 64) w) q.ends
          ∙ same_diff (s.next_read + length items))

  pub read_none : get_elem? items 0 ≡ none → get_read_pos s ≡ some (s, none)
  unfolding get_read_pos
  read_none f =
      let here : get_node s s.next_read ≡ some (node_of none (s.next_read + 0)) =
        node_lem s.next_read 0 (pow_pos k) read_place
        ∙ ap (λ o. some (node_of o (s.next_read + 0))) f in
      let opened : get_read_pos s
          ≡ claim s (sub_usize (sub_usize ((s.next_read + 0) % 2 ^ 64) 1) s.next_read) s.next_read
              after =
        rw (here, ◌>>=◌) refl in
      opened ∙ claim_busy s after _ s.next_read (empty_diff s.next_read q.range)

  pub read_some :
      (x : T) → get_elem? items 0 ≡ some x → get_read_pos s ≡ some (after, some s.next_read)
  unfolding get_read_pos
  read_some x f =
      let here : get_node s s.next_read ≡ some (node_of (some x) (s.next_read + 0)) =
        node_lem s.next_read 0 (pow_pos k) read_place
        ∙ ap (λ o. some (node_of o (s.next_read + 0))) f in
      let opened : get_read_pos s
          ≡ claim s (sub_usize (sub_usize ((s.next_read + 0 + 1) % 2 ^ 64) 1) s.next_read)
              s.next_read after =
        rw (here, ◌>>=◌) refl in
      opened ∙ claim_free s after _ s.next_read (some_diff s.next_read q.range)
