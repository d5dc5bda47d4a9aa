-- ===== src/Slots/Making.antt =====
-- The making of the buffer in `new` of src/mpsc/bounded_fast/imp.rs and src/spmc/bounded_fast/imp.rs.
-- `none` is a fault, or the end of the program by `oom`.
use comm.Prelude.{
  ℕ, zero, suc, ◌+◌, ◌-◌, ◌%◌, ◌^◌, ◌≤◌, ◌<◌, ◌≡◌, refl, sym, ◌∙◌, ap, subst, fun_ext, set, Option,
  none, some, List, [], ◌∷◌, ◌>>=◌, arith, length, get_elem?, get_elem?-set_self, get_elem?-set_ne,
  length-set, bit_and, bit_and-mask, leb, if◌then◌else◌, Bool-cases, inl, inr, ==_of_false, ◌==◌,
}
use comm.Prelude.Powers.{checked_next_power_of_two, saturating_size, next_power_of_two_lem}
use comm.Slots.{Node, Slots, get_node, set_node}
use comm.Slots.IsQueue.{IsQueue, node_at}
use native.Mathlib.Nat.{pow-le-pow_right, mod-eq_of_lt}

-- `cmp::max(buf_size, 2)`
abbrev pub at_least_two : ℕ → ℕ
at_least_two buf_size = if leb 2 buf_size then buf_size else 2

-- `checked_next_power_of_two().unwrap_or(!0)`
abbrev pub unwrap_or_max : Option ℕ → ℕ
unwrap_or_max none = 2 ^ 64 - 1
unwrap_or_max (some cap) = cap

-- Memory that nothing has been stored to: no messages, and in the positions whatever `words` says.
unfoldable pub uninitialized {ℓ} : {T : Type ℓ} → (nodes i : ℕ) → (words : ℕ → ℕ) → List (Node T)
uninitialized zero i words = []
uninitialized (suc n) i words = record { val = none; pos = words i } ∷ uninitialized n (suc i) words

uninitialized-length {ℓ} :
    (T : Type ℓ) (n i : ℕ) (words : ℕ → ℕ) → length (uninitialized {T = T} n i words) ≡ n
unfolding uninitialized
uninitialized-length T zero i words = refl
uninitialized-length T (suc n) i words = ap suc (uninitialized-length T n (suc i) words)

uninitialized_at {ℓ} :
    (T : Type ℓ) (n i : ℕ) (words : ℕ → ℕ) (j : ℕ)
    → j < n
    → (w : ℕ) × (get_elem? (uninitialized {T = T} n i words) j
        ≡ some (record { val = none; pos = w }))
unfolding uninitialized
uninitialized_at T zero i words j h = absurd (omega arith)
uninitialized_at T (suc n) i words zero h = (words i, refl)
uninitialized_at T (suc n) i words (suc j) h = uninitialized_at T n (suc i) words j (omega arith)

one_enough : (i : ℕ) → 1 ≤ i → 2 ≤ 2 ^ i
one_enough i h = pow-le-pow_right {n = 2} (omega arith) h

at_least_two_le : (n m : ℕ) → n ≤ m → 2 ≤ m → at_least_two n ≤ m
at_least_two_le n m h two = ground arith

le-at_least_two : (n : ℕ) → n ≤ at_least_two n
le-at_least_two n = ground arith

two-at_least_two : (n : ℕ) → 2 ≤ at_least_two n
two-at_least_two n = ground arith

exponent_pos : (k : ℕ) → 2 ≤ 2 ^ k → 1 ≤ k
exponent_pos zero h = absurd (omega arith)
exponent_pos (suc k) h = omega arith

module _ {ℓ} {T : Type ℓ} where
  -- The loop that stores every position to its node, with the rounds left and `i`.
  unfoldable pub store_positions : (rounds i : ℕ) → Slots T → Option (Slots T)
  unfolding get_node set_node
  store_positions zero i s = some s
  store_positions (suc n) i s =
      get_node s i >>= λ node. store_positions n (suc i) (set_node s i (record node { pos = i }))

  abbrev raw : (cap : ℕ) → (words : ℕ → ℕ) → Slots T
  raw cap words = record {
    buf = uninitialized cap 0 words;
    cap_mask = cap - 1;
    next_write = 0;
    next_read = 0;
  }

  -- `allocate` gives the memory of so many bytes, or null; `size_of` is the size of a node.
  unfoldable pub new : (allocate : ℕ → Option (ℕ → ℕ)) → (size_of buf_size : ℕ) → Option (Slots T)
  unfolding checked_next_power_of_two store_positions uninitialized
  new allocate size_of buf_size =
      let cap = unwrap_or_max (checked_next_power_of_two (at_least_two buf_size)) in
      allocate (saturating_size cap size_of) >>= λ words. store_positions cap 0 (raw cap words)

  -- The first `i` nodes carry their positions, and none holds a message.
  record Stored (k i : ℕ) (buf : List (Node T)) : Type ℓ where
    size : length buf ≡ 2 ^ k
    before : (j : ℕ) → j < i → get_elem? buf j ≡ some (record { val = none; pos = j })
    behind :
        (j : ℕ)
        → i ≤ j
        → j < 2 ^ k
        → (w : ℕ) × (get_elem? buf j ≡ some (record { val = none; pos = w }))

  store_one :
      (k i : ℕ) (buf : List (Node T))
      → i < 2 ^ k
      → Stored k i buf
      → Stored k (suc i) (set buf i (record { val = none; pos = i }))
  store_one k i buf lt m = record {
    size = length-set buf i _ ∙ m.size;
    before = λ j h. elim (Bool-cases (i == j)) [
      | inl e ↦
          let same : i ≡ j = ground arith in
          subst
            (λ t.
              get_elem? (set buf i (record { val = none; pos = i })) t
              ≡ some (record { val = none; pos = t }))
            same (get_elem?-set_self buf i _ (omega (arith, m.size)))
      | inr e ↦
          get_elem?-set_ne buf i j _ (==_of_false i j e)
          ∙ m.before j (ground (arith, ==_of_false i j e))
    ];
    behind = λ j h b.
        let (w, e) = m.behind j (omega arith) b in
        (w, get_elem?-set_ne buf i j _ (λ (q : i ≡ j). absurd (omega arith)) ∙ e);
  }

  store_positions_lem :
      (k n i : ℕ) (s : Slots T)
      → s.cap_mask ≡ 2 ^ k - 1
      → i + n ≡ 2 ^ k
      → Stored k i s.buf
      → (b : List (Node T)) × (store_positions n i s ≡ some (record s { buf = b }))
        × Stored k (2 ^ k) b
  unfolding store_positions get_node set_node
  store_positions_lem k zero i s mask e m =
      (s.buf, refl, subst (λ t. Stored k t s.buf) (omega arith) m)
  store_positions_lem k (suc n) i s mask e m =
      let lt : i < 2 ^ k = omega arith in
      let place : bit_and i s.cap_mask ≡ i =
        ap (bit_and i) mask ∙ bit_and-mask k i ∙ mod-eq_of_lt lt in
      let (w, here) = m.behind i (omega arith) lt in
      let next : Slots T = record s { buf = set s.buf i (record { val = none; pos = i }) } in
      let opened : store_positions (suc n) i s ≡ store_positions n (suc i) next =
        rw (place, here, ◌>>=◌) refl in
      let (b, done, m') =
        store_positions_lem k n (suc i) next mask (omega arith) (store_one k i s.buf lt m) in
      (b, opened ∙ done, m')

  stored_node :
      (k i : ℕ) → k ≤ 62 → i < 2 ^ k → node_at {T = T} 0 [] i ≡ record { val = none; pos = i }
  stored_node k i le lt =
      ap (λ p. record { val = none; pos = p })
        (omega (arith, pow-le-pow_right {n = 2} (omega arith) le))

  Stored-IsQueue :
      (k : ℕ) (b : List (Node T))
      → 1 ≤ k
      → k ≤ 62
      → Stored k (2 ^ k) b
      → IsQueue k (record { buf = b; cap_mask = 2 ^ k - 1; next_write = 0; next_read = 0 }) []
  Stored-IsQueue k b two le m = record {
    two = two;
    fits = le;
    mask = refl;
    size = m.size;
    range = omega arith;
    ends = refl;
    room = omega arith;
    nodes = λ i lt.
        ap (get_elem? b) (ap (λ (t : ℕ). t % 2 ^ k) (omega arith) ∙ mod-eq_of_lt lt)
        ∙ m.before i lt
        ∙ ap some (sym (stored_node k i le lt));
  }

  raw-Stored : (k : ℕ) (words : ℕ → ℕ) → Stored k 0 (raw (2 ^ k) words).buf
  raw-Stored k words = record {
    size = uninitialized-length T (2 ^ k) 0 words;
    before = λ j h. absurd (omega arith);
    behind = λ j h b. uninitialized_at T (2 ^ k) 0 words j b;
  }

  store_all :
      (k : ℕ) (words : ℕ → ℕ)
      → (b : List (Node T)) × (store_positions (2 ^ k) 0 (raw (2 ^ k) words)
          ≡ some (record (raw (2 ^ k) words) { buf = b }))
        × Stored k (2 ^ k) b
  store_all k words =
      store_positions_lem k (2 ^ k) 0 (raw (2 ^ k) words) refl (omega arith) (raw-Stored k words)

  -- The least power of two that is enough for the size and not below two is the capacity.
  pub new_lem :
      (allocate : ℕ → Option (ℕ → ℕ)) (size_of buf_size : ℕ)
      → buf_size ≤ 2 ^ 62
      → (k : ℕ) × (made : (ℕ → ℕ) → Slots T) × (1 ≤ k)
        × (buf_size ≤ 2 ^ k)
        × ((i : ℕ) → 1 ≤ i → buf_size ≤ 2 ^ i → k ≤ i)
        × (new allocate size_of buf_size
            ≡ (allocate (saturating_size (2 ^ k) size_of) >>= λ words. some (made words)))
        × ((words : ℕ → ℕ) → IsQueue k (made words) [])
  unfolding new
  new_lem allocate size_of buf_size small =
      let n = at_least_two buf_size in
      let (k, found, _, enough, least) =
        next_power_of_two_lem n (at_least_two_le buf_size (2 ^ 63) (omega arith) (omega arith)) in
      let le : k ≤ 62 = least 62 (at_least_two_le buf_size (2 ^ 62) small (omega arith)) in
      let two : 1 ≤ k = exponent_pos k (omega (arith, two-at_least_two buf_size)) in
      (
        k,
        (λ words. record (raw (2 ^ k) words) { buf = (store_all k words).0 }),
        two,
        omega (arith, le-at_least_two buf_size),
        (λ i one h. least i (at_least_two_le buf_size (2 ^ i) h (one_enough i one))),
        ap
              (λ cap. allocate (saturating_size (unwrap_or_max cap) size_of) >>= λ words.
                store_positions (unwrap_or_max cap) 0 (raw (unwrap_or_max cap) words))
              found
            ∙ ap (λ f. allocate (saturating_size (2 ^ k) size_of) >>= f)
                (fun_ext (λ words. (store_all k words).1)),
        (λ words. Stored-IsQueue k (store_all k words).0 two le (store_all k words).2),
      )
