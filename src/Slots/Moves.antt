-- ===== src/Slots/Moves.antt =====
-- What the store of a message and the read of one do to the queue that the nodes stand for.
use comm.Prelude.{
  ltb, ℕ, zero, suc, ◌+◌, ◌%◌, ◌^◌, ◌≤◌, ◌<◌, ◌≡◌, ◌≢◌, inl, inr, refl, sym, ◌∙◌, ap, Option, none,
  some, List, [], ◌∷◌, ◌++◌, ◌>>=◌, arith, length, length-append, length-set, get_elem?,
  get_elem?-set_self, get_elem?-set_ne, set, bit_and, bit_and-mask, pow_pos, ◌==◌, add_usize,
  Bool-cases, ==_iff, ==_of_false,
}
use comm.Ring.Laws.{place_ne}
use comm.Slots.{Node, Slots, get_node, set_node, fill}
use comm.Slots.IsQueue.{IsQueue, node_of, node_at, node_lem, next, write_place}
use native.Mathlib.Nat.{mod-lt}

module _ {ℓ} {T : Type ℓ} where
  append_other :
      (xs : List T) (y : T) (i : ℕ) → i ≢ length xs → get_elem? (xs ++ (y ∷ [])) i ≡ get_elem? xs i
  append_other [] y zero h = absurd (h refl)
  append_other [] y (suc i) h = refl
  append_other (x ∷ xs) y zero h = refl
  append_other (x ∷ xs) y (suc i) h = append_other xs y i (λ e. h (ap suc e))

  append_last : (xs : List T) (y : T) → get_elem? (xs ++ (y ∷ [])) (length xs) ≡ some y
  append_last [] y = refl
  append_last (x ∷ xs) y = append_last xs y

  pub past_end : (xs : List T) (i : ℕ) → length xs ≤ i → get_elem? xs i ≡ none
  past_end [] i h = refl
  past_end (x ∷ xs) zero h = absurd (omega arith)
  past_end (x ∷ xs) (suc i) h = past_end xs i (omega arith)

  pub node_of_wrap :
      (o : Option T) (p p' : ℕ) → p % 2 ^ 64 ≡ p' % 2 ^ 64 → node_of o p ≡ node_of o p'
  node_of_wrap none p p' e = ap (λ n. record { val = none; pos = n }) e
  node_of_wrap (some x) p p' e = ap (λ n. record { val = some x; pos = n }) (omega (arith, e))

pub differ : (c r i n : ℕ) → i < c → n < c → i ≢ n → (r + n) % c ≢ (r + i) % c
differ c r i n a b h e = elim (Bool-cases (ltb i n)) [
  | inl lt ↦ place_ne c r i n (ground arith) (omega arith) e
  | inr ge ↦ place_ne c r n i (ground (arith, h)) (omega arith) (sym e)
]

module _ {ℓ} {T : Type ℓ} (k : ℕ) (s : Slots T) (items : List T) (q : IsQueue k s items) (val : T)
    (lt : length items < 2 ^ k) where
  at : ℕ
  at = (s.next_read + length items) % 2 ^ k

  abbrev filled_node : Node T
  filled_node = record { val = some val; pos = add_usize s.next_write 1 }

  at_lem : bit_and s.next_write s.cap_mask ≡ (s.next_read + length items) % 2 ^ k
  at_lem = ap (bit_and s.next_write) q.mask ∙ bit_and-mask k s.next_write ∙ write_place k s items q

  at_bound : (s.next_read + length items) % 2 ^ k < length s.buf
  at_bound = omega (arith, mod-lt (s.next_read + length items) (pow_pos k), q.size)

  filled_at :
      (i : ℕ)
      → i < 2 ^ k
      → get_elem?
          (set s.buf ((s.next_read + length items) % 2 ^ k) filled_node)
          ((s.next_read + i) % 2 ^ k)
        ≡ some (node_at s.next_read (items ++ (val ∷ [])) i)
  filled_at i h = elim (Bool-cases (i == length items)) [
    | inl e ↦
        let same : i ≡ length items = (==_iff i (length items)).0 e in
        ap
          (λ j.
            get_elem? (set s.buf ((s.next_read + length items) % 2 ^ k) filled_node)
              ((s.next_read + j) % 2 ^ k))
          same
        ∙ get_elem?-set_self s.buf ((s.next_read + length items) % 2 ^ k) filled_node at_bound
        ∙ ap (λ p. some (record { val = some val; pos = p })) (omega (arith, q.ends))
        ∙ ap (λ o. some (node_of o (s.next_read + length items))) (sym (append_last items val))
        ∙ ap (λ j. some (node_at s.next_read (items ++ (val ∷ [])) j)) (sym same)
    | inr e ↦
        let other = ==_of_false i (length items) e in
        get_elem?-set_ne s.buf ((s.next_read + length items) % 2 ^ k) ((s.next_read + i) % 2 ^ k)
          filled_node (differ (2 ^ k) s.next_read i (length items) h lt other)
        ∙ q.nodes i h
        ∙ ap (λ o. some (node_of o (s.next_read + i))) (sym (append_other items val i other))
  ]

  -- A send stores its message behind the others.
  pub fill_lem :
      (s' : Slots T) × (fill (next k s items q) s.next_write val ≡ some s')
      × IsQueue k s' (items ++ (val ∷ []))
  unfolding fill set_node get_node
  fill_lem =
      let here = node_lem k s items q s.next_write (length items) lt (write_place k s items q) in
      let grown : length (items ++ (val ∷ [])) ≡ length items + 1 =
        length-append items (val ∷ []) in
      (
        set_node (next k s items q) s.next_write filled_node,
        rw (here, ◌>>=◌) refl,
        record {
          two = q.two;
          fits = q.fits;
          mask = q.mask;
          size = length-set s.buf (bit_and s.next_write s.cap_mask) filled_node ∙ q.size;
          range = q.range;
          ends = omega (arith, q.ends, grown);
          room = omega (arith, grown);
          nodes = λ i h.
              ap (λ j. get_elem? (set s.buf j filled_node) ((s.next_read + i) % 2 ^ k)) at_lem
              ∙ filled_at i h;
        },
      )
