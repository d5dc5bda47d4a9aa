-- ===== src/Select/Wait/Targets.antt =====
-- src/select/imp.rs, `Select::add` and `Select::remove`: a target enters the wait list and leaves it.
use comm.Prelude.{
  ℕ, ◌≡◌, refl, false, ◌&&◌, ◌||◌, some, List, [], ◌∷◌, arith, ◌==◌, ◌!=◌, if◌then◌else◌,
  Bool-cases, inl, inr, ◌>>=◌, contains_key, contains_key-insert, contains_key-remove, occurs,
  update, update_at, update_off, insert_key, remove_key, not, ==_self,
}
use comm.SortedVec.Set.{insert_lem, remove_lem, with, without}
use comm.Select.Inner.{Inner}
use comm.Select.Inner.Laws.{IsAddress, AllAddress, IsValid, length-addresses, AllAddress-with}
use comm.Select.WaitQueue.{Selects}
use comm.Select.Wait.{Selectable, add, remove}

AllAddress-without : (id : ℕ) (xs : List ℕ) → AllAddress xs → AllAddress (without id xs)
unfolding without
AllAddress-without id [] all = tt
AllAddress-without id (x ∷ xs) all = ground (arith, AllAddress-without id xs all.1)

module _ {S : Type 0} (sel : Selectable S) where
  -- Another `Select` object is left as it is.
  abbrev pub Only : (me : ℕ) (before after : Selects) → Type 0
  Only me before after = (a : ℕ) → (me == a) ≡ false → after a ≡ before a

  -- The `Select` object after `add`.
  abbrev added : Inner → List ℕ → Inner
  added s ready_list = record s {
    ready_list = ready_list;
    wait_list = insert_key sel.unique_id (record { target = sel.unique_id }) s.wait_list;
  }

  -- If the id of the target is an address, `add` to a valid `Select` object does not panic: the target
  -- is registered, it joins the wait list, and its id joins the ready list exactly if it is ready
  -- then. The `Select` object is valid again, and no other changes.
  pub add_lem :
      (target : S) (selects : Selects) (me : ℕ) (s : Inner)
      → selects me ≡ some s
      → IsAddress sel.unique_id
      → IsValid s
      → (selects' : Selects) × (s' : Inner) × (add sel target selects me
          ≡ some (sel.register target me, selects'))
        × (selects' me ≡ some s')
        × IsValid s'
        × ((w : ℕ)
            → contains_key w s'.wait_list ≡ (sel.unique_id == w) || contains_key w s.wait_list)
        × ((w : ℕ)
            → occurs w s'.ready_list
              ≡ (sel.ready (sel.register target me) && sel.unique_id == w) || occurs w s.ready_list)
        × Only me selects selects'
  unfolding add
  add_lem target selects me s here address v =
      let (done, sorted, ids) =
        insert_lem s.ready_list sel.unique_id v.sorted
          (length-addresses s.ready_list v.sorted v.addresses) in
      elim (Bool-cases (sel.ready (sel.register target me))) [
        | inl ready ↦
            let s' : Inner = added s (with sel.unique_id s.ready_list) in
            (
              update selects me (some s'),
              s',
              rw (here, ◌>>=◌, ready, done) refl,
              update_at selects me me (some s') (==_self me),
              record {
                sorted = sorted;
                addresses = AllAddress-with sel.unique_id s.ready_list address v.addresses;
                spare = v.spare;
              },
              (λ w. contains_key-insert sel.unique_id w _ s.wait_list),
              (λ w. rw ready (ids w)),
              λ a e. update_off selects me a (some s') e,
            )
        | inr idle ↦
            let s' : Inner = added s s.ready_list in
            (
              update selects me (some s'),
              s',
              rw (here, ◌>>=◌, idle) refl,
              update_at selects me me (some s') (==_self me),
              record { sorted = v.sorted; addresses = v.addresses; spare = v.spare },
              (λ w. contains_key-insert sel.unique_id w _ s.wait_list),
              (λ w. rw idle refl),
              λ a e. update_off selects me a (some s') e,
            )
      ]

  -- If the target can be unregistered, `remove` from a valid `Select` object does not panic, and says
  -- whether the target was in the wait list. If so, it is unregistered, and the id has left the wait
  -- list and the ready list, and nothing else has. The `Select` object stays valid, and no other
  -- `Select` object changes.
  pub remove_target_lem :
      (target target' : S) (selects : Selects) (me : ℕ) (s : Inner)
      → selects me ≡ some s
      → sel.unregister target me ≡ some target'
      → IsValid s
      → (selects' : Selects) × (s' : Inner) × (remove sel target selects me
          ≡ some (
            (if contains_key sel.unique_id s.wait_list then target' else target),
            selects',
            contains_key sel.unique_id s.wait_list,
          ))
        × (selects' me ≡ some s')
        × IsValid s'
        × ((w : ℕ)
            → contains_key w s'.wait_list ≡ (sel.unique_id != w) && contains_key w s.wait_list)
        × ((w : ℕ)
            → occurs w s'.ready_list
              ≡ not (contains_key sel.unique_id s.wait_list && sel.unique_id == w)
                && occurs w s.ready_list)
        × Only me selects selects'
  unfolding remove
  remove_target_lem target target' selects me s here gone v =
      let (done, sorted, ids) =
        remove_lem s.ready_list sel.unique_id v.sorted
          (length-addresses s.ready_list v.sorted v.addresses) in
      elim (Bool-cases (contains_key sel.unique_id s.wait_list)) [
        | inl known ↦
            let s' : Inner = record s {
              ready_list = without sel.unique_id s.ready_list;
              wait_list = remove_key sel.unique_id s.wait_list;
            } in
            (
              update selects me (some s'),
              s',
              rw (here, ◌>>=◌, known, done, ◌>>=◌, gone) refl,
              update_at selects me me (some s') (==_self me),
              record {
                sorted = sorted;
                addresses = AllAddress-without sel.unique_id s.ready_list v.addresses;
                spare = v.spare;
              },
              (λ w. contains_key-remove sel.unique_id w s.wait_list),
              (λ w. rw known (ground (arith, ids w))),
              λ a e. update_off selects me a (some s') e,
            )
        | inr unknown ↦ (
          selects,
          s,
          rw (here, ◌>>=◌, unknown) refl,
          here,
          v,
          (λ w. ground arith),
          (λ w. rw unknown refl),
          λ a e. refl,
        )
      ]
