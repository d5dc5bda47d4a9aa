-- ===== src/Nodes/Queue.antt =====
-- What each step on the two ends of the list does to the chain of nodes.
use comm.Prelude.{
  ℕ, ◌≡◌, refl, sym, ◌∙◌, ap, subst, Bool, true, false, not, ◌&&◌, ◌||◌, none, some, List, [], ◌∷◌,
  ◌++◌, arith, ◌==◌, ◌!=◌, if◌then◌else◌, Map, lookup, insert_key, remove_key, contains_key, occurs,
  is_some, ==_self, ==_iff, lookup-insert, lookup-remove, contains_key-insert, contains_key-remove,
  contains_key-lookup,
}
use comm.Nodes.{null, Node, blank, Ends, IsFresh, publish, take, new, append}
use comm.Nodes.Linked.{
  apart_from, or_false, ==_comm_false, Cells, first, addresses, cell, Linked, Apart, frame, snoc,
  addresses-snoc, Apart-snoc, end_occurs, first-snoc,
}

-- The list from `read_end` to `write_end` holds the cells, and the heap has no other node.
pub record IsQueue {ℓ} {T : Type ℓ} (e : Ends T) (cells : Cells T) : Type ℓ where
  pub linked : Linked e.heap cells e.write_end
  pub apart : Apart cells e.write_end
  pub head : e.read_end ≡ first cells e.write_end
  pub exact : (w : ℕ) → contains_key w e.heap ≡ occurs w (addresses cells e.write_end)
  pub nonnull : occurs null (addresses cells e.write_end) ≡ false

-- The cells of messages that have all been stored.
abbrev pub filled {ℓ} : {T : Type ℓ} → List (ℕ × T) → Cells T
filled [] = []
filled ((a, x) ∷ xs) = (a, some x) ∷ filled xs

abbrev pub messages {ℓ} : {T : Type ℓ} → List (ℕ × T) → List T
messages [] = []
messages ((a, x) ∷ xs) = x ∷ messages xs

pub filled-snoc {ℓ} :
    {T : Type ℓ} (xs : List (ℕ × T)) (a : ℕ) (x : T)
    → filled (xs ++ ((a, x) ∷ [])) ≡ filled xs ++ ((a, some x) ∷ [])
filled-snoc [] a x = refl
filled-snoc ((b, y) ∷ xs) a x = ap (λ l. (b, some y) ∷ l) (filled-snoc xs a x)

pub messages-snoc {ℓ} :
    {T : Type ℓ} (xs : List (ℕ × T)) (a : ℕ) (x : T)
    → messages (xs ++ ((a, x) ∷ [])) ≡ messages xs ++ (x ∷ [])
messages-snoc [] a x = refl
messages-snoc ((b, y) ∷ xs) a x = ap (λ l. y ∷ l) (messages-snoc xs a x)

neither : (b c : Bool) → b ≡ false → c ≡ false → b || c ≡ false
neither b c e f = rw (e, f) refl

minus : (b c : Bool) → (b ≡ true → c ≡ false) → not b && (b || c) ≡ c
minus true c h = sym (h refl)
minus false c h = refl

plus : (b c d : Bool) → (b ≡ true → d ≡ true) → b || (c || d) ≡ d || c
plus true c d h = rw (h refl) refl
plus false true true h = refl
plus false true false h = refl
plus false false true h = refl
plus false false false h = refl

ne-not : (a b : ℕ) → (a != b) ≡ not (a == b)
ne-not a b = ground arith

module _ {ℓ} {T : Type ℓ} where
  end_there :
      (heap : Map (Node T)) (ps : Cells T) (end : ℕ)
      → Linked heap ps end
      → lookup end heap ≡ some blank
  end_there heap [] end l = l
  end_there heap ((a, o) ∷ ps) end l = end_there heap ps end l.1

  -- A message that has been stored in the first cell comes out, and its node is freed.
  pub take-some :
      (e : Ends T) (a : ℕ) (x : T) (ps : Cells T)
      → IsQueue e ((a, some x) ∷ ps)
      → (e' : Ends T) × (take e ≡ some (e', some x)) × IsQueue e' ps × (e'.write_end ≡ e.write_end)
  unfolding take
  take-some e a x ps q = (
    record e { heap = remove_key e.read_end e.heap; read_end = first ps e.write_end },
    rw here refl,
    record {
      linked = frame e.heap (remove_key e.read_end e.heap) ps e.write_end same q.linked.1;
      apart = q.apart.1;
      head = refl;
      exact = λ w.
          contains_key-remove e.read_end w e.heap
          ∙ ap (λ b. (e.read_end != w) && b) (q.exact w)
          ∙ ap (λ r. (r != w) && ((a == w) || occurs w (addresses ps e.write_end))) q.head
          ∙ ap (λ b. b && ((a == w) || occurs w (addresses ps e.write_end))) (ne-not a w)
          ∙ minus (a == w) (occurs w (addresses ps e.write_end)) (away w);
      nonnull = or_false (a == null) (occurs null (addresses ps e.write_end)) q.nonnull;
    },
    refl,
  )
    where
      here : lookup e.read_end e.heap ≡ some (cell (some x) (first ps e.write_end))
      here = ap (λ r. lookup r e.heap) q.head ∙ q.linked.0

      away : (w : ℕ) → (a == w) ≡ true → occurs w (addresses ps e.write_end) ≡ false
      away w t =
          subst (λ v. occurs v (addresses ps e.write_end) ≡ false) ((==_iff a w).0 t) q.apart.0

      same :
          (w : ℕ)
          → occurs w (addresses ps e.write_end) ≡ true
          → lookup w (remove_key e.read_end e.heap) ≡ lookup w e.heap
      same w i =
          lookup-remove e.read_end w e.heap
          ∙ ap (λ r. if r == w then none else lookup w e.heap) q.head
          ∙ ap (λ b. if b then none else lookup w e.heap)
              (apart_from w a (addresses ps e.write_end) i q.apart.0)

  -- With no cell, or none stored in the first, there is nothing to take.
  abbrev pub IsIdle : Cells T → Type 0
  IsIdle [] = Unit
  IsIdle ((a, none) ∷ ps) = Unit
  IsIdle ((a, some x) ∷ ps) = ⊥

  pub first-blank :
      (heap : Map (Node T)) (cells : Cells T) (end : ℕ)
      → Linked heap cells end
      → IsIdle cells
      → lookup (first cells end) heap ≡ some blank
  first-blank heap [] end l i = l
  first-blank heap ((a, none) ∷ ps) end l i = l.0
  first-blank heap ((a, some x) ∷ ps) end l i = elim i [ ]

  pub take-none :
      (e : Ends T) (cells : Cells T) → IsQueue e cells → IsIdle cells → take e ≡ some (e, none)
  unfolding take
  take-none e cells q i =
      let here : lookup e.read_end e.heap ≡ some blank =
        ap (λ r. lookup r e.heap) q.head ∙ first-blank e.heap cells e.write_end q.linked i in
      rw here refl

  module _ (alloc : Map (Node T) → ℕ) (fresh : IsFresh alloc) where
    unused :
        (e : Ends T) (cells : Cells T)
        → IsQueue e cells
        → occurs (alloc e.heap) (addresses cells e.write_end) ≡ false
    unused e cells q =
        sym (q.exact (alloc e.heap))
        ∙ contains_key-lookup (alloc e.heap) e.heap
        ∙ ap is_some (fresh e.heap).0

    -- The end takes a message, and a new blank node becomes the end.
    pub append_lem :
        (e : Ends T) (cells : Cells T) (x : T)
        → IsQueue e cells
        → (e' : Ends T) × (append alloc e x ≡ some e')
          × IsQueue e' (cells ++ ((e.write_end, some x) ∷ []))
          × (e'.read_end ≡ e.read_end)
    unfolding append publish
    append_lem e cells x q =
        let c = alloc e.heap in
        let heap = insert_key e.write_end (cell (some x) c) (insert_key c blank e.heap) in
        (
          record { heap = heap; read_end = e.read_end; write_end = c },
          rw there refl,
          record {
            linked =
                snoc e.heap heap cells e.write_end c (some x) q.linked q.apart at_end at_new others
                  (unused e cells q);
            apart = Apart-snoc cells e.write_end c (some x) q.apart (unused e cells q);
            head = q.head ∙ sym (first-snoc cells e.write_end c (some x));
            exact = λ w.
                contains_key-insert e.write_end w _ (insert_key c blank e.heap)
                ∙ ap (λ b. (e.write_end == w) || b) (contains_key-insert c w blank e.heap)
                ∙ ap (λ b. (e.write_end == w) || ((c == w) || b)) (q.exact w)
                ∙ plus (e.write_end == w) (c == w) (occurs w (addresses cells e.write_end))
                    (at_end_occurs w)
                ∙ sym (addresses-snoc w cells e.write_end c (some x));
            nonnull =
                addresses-snoc null cells e.write_end c (some x)
                ∙ neither _ _ q.nonnull (fresh e.heap).1;
          },
          refl,
        )
      where
        new_heap : Map (Node T)
        new_heap = insert_key (alloc e.heap) blank e.heap

        apart_ends : (alloc e.heap == e.write_end) ≡ false
        apart_ends =
            apart_from e.write_end (alloc e.heap) (addresses cells e.write_end)
              (end_occurs cells e.write_end) (unused e cells q)

        at_end_occurs :
            (w : ℕ) → (e.write_end == w) ≡ true → occurs w (addresses cells e.write_end) ≡ true
        at_end_occurs w t =
            subst (λ v. occurs v (addresses cells e.write_end) ≡ true) ((==_iff e.write_end w).0 t)
              (end_occurs cells e.write_end)

        there : lookup e.write_end (insert_key (alloc e.heap) blank e.heap) ≡ some blank
        there =
            lookup-insert (alloc e.heap) e.write_end blank e.heap
            ∙ ap (λ b. if b then some blank else lookup e.write_end e.heap) apart_ends
            ∙ end_there e.heap cells e.write_end q.linked

        at_end :
            lookup e.write_end (
              insert_key e.write_end
                (cell (some x) (alloc e.heap))
                (insert_key (alloc e.heap) blank e.heap))
            ≡ some (cell (some x) (alloc e.heap))
        at_end = lookup-insert e.write_end e.write_end _ _ ∙ rw (==_self e.write_end) refl

        at_new :
            lookup (alloc e.heap) (
              insert_key e.write_end
                (cell (some x) (alloc e.heap))
                (insert_key (alloc e.heap) blank e.heap))
            ≡ some blank
        at_new =
            lookup-insert e.write_end (alloc e.heap) _ _
            ∙ ap
                (λ b.
                  if b
                  then some (cell (some x) (alloc e.heap))
                  else lookup (alloc e.heap) (insert_key (alloc e.heap) blank e.heap))
                (==_comm_false (alloc e.heap) e.write_end apart_ends)
            ∙ lookup-insert (alloc e.heap) (alloc e.heap) _ _
            ∙ rw (==_self (alloc e.heap)) refl

        others :
            (w : ℕ)
            → (e.write_end == w) ≡ false
            → (alloc e.heap == w) ≡ false
            → lookup w (
                insert_key e.write_end
                  (cell (some x) (alloc e.heap))
                  (insert_key (alloc e.heap) blank e.heap))
              ≡ lookup w e.heap
        others w a b =
            lookup-insert e.write_end w _ _
            ∙ ap
                (λ t.
                  if t
                  then some (cell (some x) (alloc e.heap))
                  else lookup w (insert_key (alloc e.heap) blank e.heap))
                a
            ∙ lookup-insert (alloc e.heap) w _ _
            ∙ ap (λ t. if t then some blank else lookup w e.heap) b

    -- The list that `new` makes holds no message, in a heap of one node.
    pub new_lem : IsQueue (new alloc) []
    unfolding new
    new_lem = record {
      linked = lookup-insert (alloc []) (alloc []) blank [] ∙ rw (==_self (alloc [])) refl;
      apart = tt;
      head = refl;
      exact = λ w. refl;
      nonnull = neither _ _ (fresh []).1 refl;
    }
