-- ===== src/Nodes/Linked.antt =====
-- What a chain of nodes holds: cells in the order in which the senders took them, each with its
-- message once that has been stored, and a blank node at the end.
use comm.Prelude.{
  ℕ, ◌≡◌, refl, sym, ◌∙◌, ap, Bool, true, false, ◌||◌, Option, none, some, List, [], ◌∷◌, ◌++◌,
  arith, ◌==◌, Map, lookup, occurs,
}
use comm.Nodes.{Node, blank}

abbrev pub Cells {ℓ} : Type ℓ → Type ℓ
Cells T = List (ℕ × Option T)

pub or_false : (b c : Bool) → b || c ≡ false → c ≡ false
or_false true c e = cc
or_false false c e = e

pub or_false_left : (b c : Bool) → b || c ≡ false → b ≡ false
or_false_left true c e = cc
or_false_left false c e = refl

pub ==_comm_false : (a b : ℕ) → (a == b) ≡ false → (b == a) ≡ false
==_comm_false a b e = ground arith

pub apart_from :
    (a b : ℕ) (xs : List ℕ) → occurs a xs ≡ true → occurs b xs ≡ false → (b == a) ≡ false
apart_from a b [] i o = cc
apart_from a b (x ∷ xs) i o = ground (arith, apart_from a b xs)

module _ {ℓ} {T : Type ℓ} where
  -- The address of the first node.
  abbrev pub first : Cells T → ℕ → ℕ
  first [] end = end
  first ((a, o) ∷ ps) end = a

  abbrev pub addresses : Cells T → ℕ → List ℕ
  addresses [] end = end ∷ []
  addresses ((a, o) ∷ ps) end = a ∷ addresses ps end

  -- A cell as a node, with the address of the next.
  abbrev pub cell : Option T → ℕ → Node T
  cell none next = blank
  cell (some x) next = record { next = some next; val = some x }

  abbrev pub Linked : Map (Node T) → Cells T → ℕ → Type ℓ
  Linked heap [] end = lookup end heap ≡ some blank
  Linked heap ((a, o) ∷ ps) end =
      (lookup a heap ≡ some (cell o (first ps end))) × Linked heap ps end

  -- The addresses are distinct.
  abbrev pub Apart : Cells T → ℕ → Type 0
  Apart [] end = Unit
  Apart ((a, o) ∷ ps) end = (occurs a (addresses ps end) ≡ false) × Apart ps end

  pub addresses-snoc :
      (w : ℕ) (ps : Cells T) (a end : ℕ) (o : Option T)
      → occurs w (addresses (ps ++ ((a, o) ∷ [])) end) ≡ occurs w (addresses ps a) || end == w
  addresses-snoc w [] a end o = ground arith
  addresses-snoc w ((b, p) ∷ ps) a end o = ground (arith, addresses-snoc w ps a end o)

  pub Apart-snoc :
      (ps : Cells T) (a end : ℕ) (o : Option T)
      → Apart ps a
      → occurs end (addresses ps a) ≡ false
      → Apart (ps ++ ((a, o) ∷ [])) end
  Apart-snoc [] a end o d out = (ground arith, tt)
  Apart-snoc ((b, p) ∷ ps) a end o d out = (
    ground (arith, d.0, addresses-snoc b ps a end o),
    Apart-snoc ps a end o d.1 (ground (arith, out)),
  )

  pub end_occurs : (ps : Cells T) (end : ℕ) → occurs end (addresses ps end) ≡ true
  end_occurs [] end = ground arith
  end_occurs ((a, o) ∷ ps) end = ground (arith, end_occurs ps end)

  pub first-snoc :
      (ps : Cells T) (a end : ℕ) (o : Option T) → first (ps ++ ((a, o) ∷ [])) end ≡ first ps a
  first-snoc [] a end o = refl
  first-snoc ((b, p) ∷ ps) a end o = refl

  module _ (heap heap' : Map (Node T)) where
    -- A chain stays if its own nodes do.
    pub frame :
        (ps : Cells T) (end : ℕ)
        → ((w : ℕ) → occurs w (addresses ps end) ≡ true → lookup w heap' ≡ lookup w heap)
        → Linked heap ps end
        → Linked heap' ps end
    frame [] end same l = same end (ground arith) ∙ l
    frame ((a, o) ∷ ps) end same l =
        (same a (ground arith) ∙ l.0, frame ps end (λ w i. same w (ground (arith, i))) l.1)

    -- The end becomes a cell, and a new node the end.
    pub snoc :
        (ps : Cells T) (a end : ℕ) (o : Option T)
        → Linked heap ps a
        → Apart ps a
        → lookup a heap' ≡ some (cell o end)
        → lookup end heap' ≡ some blank
        → ((w : ℕ) → (a == w) ≡ false → (end == w) ≡ false → lookup w heap' ≡ lookup w heap)
        → occurs end (addresses ps a) ≡ false
        → Linked heap' (ps ++ ((a, o) ∷ [])) end
    snoc [] a end o l d here there same out = (here, there)
    snoc ((b, p) ∷ ps) a end o l d here there same out =
        let rest : occurs end (addresses ps a) ≡ false = or_false (b == end) _ out in
        let head : (b == end) ≡ false = or_false_left (b == end) _ out in
        (
          same b (==_comm_false b a (apart_from a b (addresses ps a) (end_occurs ps a) d.0))
                (==_comm_false b end head)
              ∙ l.0
              ∙ ap (λ n. some (cell p n)) (sym (first-snoc ps a end o)),
          snoc ps a end o l.1 d.1 here there same rest,
        )
