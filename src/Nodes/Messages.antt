-- ===== src/Nodes/Messages.antt =====
-- The messages that a list of nodes stores, when no send is under way.
use comm.Prelude.{
  occurs, ◌>>=◌, Option, ℕ, ◌≡◌, refl, sym, subst, arith, ◌∙◌, ap, Bool, not, none, some, List, [],
  ◌∷◌, ◌++◌, length, ◌==◌, Map, lookup, contains_key, ◌||◌, false,
}
use comm.Nodes.{
  null, reserve, new_node, publish, Node, blank, Ends, IsFresh, take, has_next, new, append,
}
use comm.Nodes.Linked.{addresses, or_false_left, first}
use comm.Nodes.Queue.{
  IsQueue, filled, messages, filled-snoc, messages-snoc, take-some, take-none, append_lem, new_lem,
}

pub record Stores {ℓ} {T : Type ℓ} (e : Ends T) (items : List T) : Type ℓ where
  pub cells : List (ℕ × T)
  pub queue : IsQueue e (filled cells)
  pub same : messages cells ≡ items

two_maps {ℓ κ μ} :
    {A : Type ℓ} {B : Type κ} {C : Type μ} (o : Option A) (f : A → B) (g : B → C)
    → (o >>= (λ a. some (f a))) >>= (λ b. some (g b)) ≡ o >>= (λ a. some (g (f a)))
two_maps none f g = refl
two_maps (some a) f g = refl

or_nothing : (b : Bool) → b || false ≡ b
or_nothing b = ground arith

module _ {ℓ} {T : Type ℓ} where
  abbrev Taken : Ends T → List T → Type ℓ
  Taken e [] = take e ≡ some (e, none)
  Taken e (x ∷ xs) = (e' : Ends T) × (take e ≡ some (e', some x)) × Stores e' xs

  take_cells :
      (e : Ends T) (cells : List (ℕ × T))
      → IsQueue e (filled cells)
      → (items : List T) → messages cells ≡ items
      → Taken e items
  take_cells e [] q [] s = take-none e [] q tt
  take_cells e ((a, y) ∷ ps) q [] s = cc
  take_cells e [] q (x ∷ xs) s = cc
  take_cells e ((a, y) ∷ ps) q (x ∷ xs) s =
      let (e', done, q', w) = take-some e a y (filled ps) q in
      let head : y ≡ x = cc in
      let tail : messages ps ≡ xs = cc in
      (e', done ∙ ap (λ t. some (e', some t)) head, record { cells = ps; queue = q'; same = tail })

  pub take_empty : (e : Ends T) → Stores e [] → take e ≡ some (e, none)
  take_empty e m = take_cells e m.cells m.queue [] m.same

  pub take_first :
      (e : Ends T) (x : T) (xs : List T)
      → Stores e (x ∷ xs)
      → (e' : Ends T) × (take e ≡ some (e', some x)) × Stores e' xs
  take_first e x xs m = take_cells e m.cells m.queue (x ∷ xs) m.same

  has_next_cells :
      (e : Ends T) (cells : List (ℕ × T))
      → IsQueue e (filled cells)
      → has_next e ≡ some (not (length (messages cells) == 0))
  unfolding has_next
  has_next_cells e [] q =
      let here : lookup e.read_end e.heap ≡ some blank =
        ap (λ r. lookup r e.heap) q.head ∙ q.linked in
      rw here refl
  has_next_cells e ((a, x) ∷ ps) q =
      let here : lookup e.read_end e.heap
          ≡ some (record { next = some (first (filled ps) e.write_end); val = some x }) =
        ap (λ r. lookup r e.heap) q.head ∙ q.linked.0 in
      rw here (ground arith)

  pub has_next_lem :
      (e : Ends T) (items : List T) → Stores e items → has_next e ≡ some (not (length items == 0))
  has_next_lem e items m =
      has_next_cells e m.cells m.queue ∙ ap (λ l. some (not (length l == 0))) m.same

  first_nonnull :
      (e : Ends T) (cells : List (ℕ × T)) → IsQueue e (filled cells) → (e.read_end == null) ≡ false
  first_nonnull e [] q =
      ap (λ r. r == null) q.head ∙ or_false_left (e.write_end == null) false q.nonnull
  first_nonnull e ((a, x) ∷ xs) q =
      ap (λ r. r == null) q.head
      ∙ or_false_left (a == null) (occurs null (addresses (filled xs) e.write_end)) q.nonnull

  pub read_end_nonnull :
      (e : Ends T) (items : List T) → Stores e items → (e.read_end == null) ≡ false
  read_end_nonnull e items m = first_nonnull e m.cells m.queue

  -- A list without messages has one node, which is blank.
  pub last_node :
      (e : Ends T)
      → Stores e []
      → (lookup e.read_end e.heap ≡ some blank)
        × ((w : ℕ) → contains_key w e.heap ≡ (e.read_end == w))
  last_node e m = go m.cells m.queue m.same
    where
      go :
          (cells : List (ℕ × T))
          → IsQueue e (filled cells)
          → messages cells ≡ []
          → (lookup e.read_end e.heap ≡ some blank)
            × ((w : ℕ) → contains_key w e.heap ≡ (e.read_end == w))
      go [] q s = (
        ap (λ r. lookup r e.heap) q.head ∙ q.linked,
        λ w. q.exact w ∙ or_nothing (e.write_end == w) ∙ ap (λ r. r == w) (sym q.head),
      )
      go (p ∷ ps) q s = cc

  module _ (alloc : Map (Node T) → ℕ) (fresh : IsFresh alloc) where
    pub append-Stores :
        (e : Ends T) (items : List T) (x : T)
        → Stores e items
        → (e' : Ends T) × (append alloc e x ≡ some e') × Stores e' (items ++ (x ∷ []))
    append-Stores e items x m =
        let (e', done, q, r) = append_lem alloc fresh e (filled m.cells) x m.queue in
        (
          e',
          done,
          record {
            cells = m.cells ++ ((e.write_end, x) ∷ []);
            queue = subst (IsQueue e') (sym (filled-snoc m.cells e.write_end x)) q;
            same = messages-snoc m.cells e.write_end x ∙ ap (λ l. l ++ (x ∷ [])) m.same;
          },
        )

    -- The two steps of a send by one of many senders, with nothing between them.
    pub send-Stores :
        (e : Ends T) (items : List T) (x : T)
        → Stores e items
        → (e' : Ends T) × (let (r, write_end, new_end) = reserve alloc e in
            publish r write_end new_end x ≡ some e')
          × Stores e' (items ++ (x ∷ []))
    unfolding reserve append publish
    send-Stores e items x m =
        let (e', done, stores) = append-Stores e items x m in
        (e', sym (two_maps (lookup e.write_end (new_node alloc e.heap).0) _ _) ∙ done, stores)

    pub new-Stores : Stores (new alloc) []
    new-Stores = record { cells = []; queue = new_lem alloc fresh; same = refl }
