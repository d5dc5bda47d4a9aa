-- ===== src/Select/Inner/Check.antt =====
-- src/select/imp.rs, `Inner::check_ready_list`: the ids that are still ready, and their copy.
use comm.Prelude.{
  true, ◌↔◌, Option-cases, lookup, ap, subst, ℕ, zero, suc, ◌+◌, ◌≤◌, ◌≡◌, refl, sym, ◌∙◌, Bool,
  ◌&&◌, Option, none, some, List, [], ◌∷◌, ◌++◌, arith, length, get_elem?, get_elem?-total, set,
  length-set, get_elem?-set_self, get_elem?-set_ne, ltb, leb, ◌==◌, if◌then◌else◌, Bool-cases, inl,
  inr, Map, min, append-nil, append_assoc, occurs,
}
use comm.SortedVec.Search.{IsSorted, Above}
use comm.Select.Inner.{Entry, Inner, copy_ids, is_ready, keep_ready, check_ready_list}
use comm.Select.Inner.Laws.{IsValid, AllAddress}

-- The loop keeps the ids that are ready, in their order.
abbrev pub ready_ids : (ℕ → Bool) → List ℕ → List ℕ
ready_ids p [] = []
ready_ids p (x ∷ xs) = if p x then x ∷ ready_ids p xs else ready_ids p xs

occurs-ready_ids :
    (p : ℕ → Bool) (w : ℕ) (xs : List ℕ) → occurs w (ready_ids p xs) ≡ p w && occurs w xs
occurs-ready_ids p w [] = ground arith
occurs-ready_ids p w (x ∷ xs) = ground (arith, occurs-ready_ids p w xs)

Above-ready_ids : (p : ℕ → Bool) (x : ℕ) (xs : List ℕ) → Above x xs → Above x (ready_ids p xs)
Above-ready_ids p x [] a = tt
Above-ready_ids p x (y ∷ xs) a = ground (arith, Above-ready_ids p x xs a.1)

ready_ids-IsSorted : (p : ℕ → Bool) (xs : List ℕ) → IsSorted xs → IsSorted (ready_ids p xs)
ready_ids-IsSorted p [] s = tt
ready_ids-IsSorted p (x ∷ xs) s =
    ground (arith, ready_ids-IsSorted p xs s.1, Above-ready_ids p x xs s.0)

AllAddress-ready_ids : (p : ℕ → Bool) (xs : List ℕ) → AllAddress xs → AllAddress (ready_ids p xs)
AllAddress-ready_ids p [] all = tt
AllAddress-ready_ids p (x ∷ xs) all = ground (arith, AllAddress-ready_ids p xs all.1)

keep_ready-eq-append :
    (probe : Entry → Option Bool) (waiting : Map Entry) (ids kept : List ℕ)
    → keep_ready probe waiting ids kept ≡ kept ++ ready_ids (is_ready probe waiting) ids
unfolding keep_ready
keep_ready-eq-append probe waiting [] kept = sym (append-nil kept)
keep_ready-eq-append probe waiting (id ∷ ids) kept = elim (Bool-cases (is_ready probe waiting id)) [
  | inl e ↦
      rw e
        (keep_ready-eq-append probe waiting ids (kept ++ (id ∷ [])) ∙ append_assoc kept (id ∷ []) _)
  | inr e ↦ rw e (keep_ready-eq-append probe waiting ids kept)
]

-- What the copying loop has done to the buffer when rounds `i` to `i + n - 1` are over.
abbrev pub Copied : (n i : ℕ) (ready ready' ids : List ℕ) → Type 0
Copied n i ready ready' ids =
    (length ready' ≡ length ready)
    × ((j : ℕ)
        → get_elem? ready' j
          ≡ (if leb i j && ltb j (i + n) then get_elem? ids j else get_elem? ready j))

pub copy_ids_lem :
    (n i : ℕ) (ready ids : List ℕ)
    → i + n ≤ length ready
    → i + n ≤ length ids
    → (ready' : List ℕ) × (copy_ids n i ready ids ≡ some ready') × Copied n i ready ready' ids
unfolding copy_ids
copy_ids_lem zero i ready ids room enough = (ready, refl, (refl, λ j. ground arith))
copy_ids_lem (suc n) i ready ids room enough =
    let (x, here) = get_elem?-total ids i (omega arith) in
    let (ready', done, copied) =
      copy_ids_lem n (i + 1) (set ready i x) ids (omega (arith, length-set ready i x))
        (omega arith) in
    (
      ready',
      ground arith,
      (
        omega (arith, copied.0, length-set ready i x),
        λ j. ground (arith, copied.1 j, get_elem?-set_self ready i x, get_elem?-set_ne ready i j x),
      ),
    )

-- What `check_ready_list` keeps, by its own test of the ids.
pub check_ready_list_kept :
    (probe : Entry → Option Bool) (s : Inner) (ready : List ℕ)
    → IsValid s
    → let kept = ready_ids (is_ready probe s.wait_list) s.ready_list in
      let n = min (length ready) (length kept) in
      (s' : Inner) × (ready' : List ℕ) × (check_ready_list probe s ready
        ≡ some (s', ready', if n == 0 then none else some n))
      × IsValid s'
      × (s'.ready_list ≡ kept)
      × (s'.wait_list ≡ s.wait_list)
      × (s'.condvar ≡ s.condvar)
      × Copied n 0 ready ready' kept
unfolding check_ready_list
check_ready_list_kept probe s ready v =
    let kept = ready_ids (is_ready probe s.wait_list) s.ready_list in
    let n = min (length ready) (length kept) in
    let after : Inner = record s { ready_list = kept; ready_list2 = [] } in
    let valid : IsValid after = record {
      sorted = ready_ids-IsSorted (is_ready probe s.wait_list) s.ready_list v.sorted;
      addresses = AllAddress-ready_ids (is_ready probe s.wait_list) s.ready_list v.addresses;
      spare = refl;
    } in
    let (ready', done, copied) = copy_ids_lem n 0 ready kept (omega arith) (omega arith) in
    elim (Bool-cases (n == 0)) [
      | inl e ↦
          rw (v.spare, keep_ready-eq-append, e)
            (after, ready, refl, valid, refl, refl, refl, (refl, λ j. ground arith))
      | inr e ↦
          rw (v.spare, keep_ready-eq-append, e, done)
            (after, ready', refl, valid, refl, refl, refl, copied)
    ]

-- The target `w` is waited for, has not been dropped, and says that it is ready.
abbrev pub IsUp : (Entry → Option Bool) → Inner → ℕ → Type 0
IsUp probe s w =
    (target : Entry) × (lookup w s.wait_list ≡ some target) × (probe target ≡ some true)

module _ (probe : Entry → Option Bool) (s : Inner) (w : ℕ) where
  is_ready-IsUp : is_ready probe s.wait_list w ≡ true → IsUp probe s w
  is_ready-IsUp e = elim (Option-cases (lookup w s.wait_list)) [
    | inl nothing ↦ absurd (ground (arith, nothing))
    | inr (target, found) ↦ elim (Option-cases (probe target)) [
      | inl dropped ↦ absurd (ground (arith, found, dropped))
      | inr (r, says) ↦ (target, found, ground (arith, found, says))
    ]
  ]

  IsUp-is_ready : IsUp probe s w → is_ready probe s.wait_list w ≡ true
  IsUp-is_ready (target, found, up) = ground (arith, found, up)

  -- The ids that the loop keeps are those that are listed and up.
  pub kept-IsUp :
      (occurs w (ready_ids (is_ready probe s.wait_list) s.ready_list) ≡ true)
      ↔ ((occurs w s.ready_list ≡ true) × IsUp probe s w)
  kept-IsUp =
      let kept = occurs-ready_ids (is_ready probe s.wait_list) w s.ready_list in
      (
        (λ e. let both = both_true _ _ (sym kept ∙ e) in (both.1, is_ready-IsUp both.0)),
        (λ (listed, up). kept ∙ rw (IsUp-is_ready up, listed) refl),
      )
    where
      both_true : (a b : Bool) → a && b ≡ true → (a ≡ true) × (b ≡ true)
      both_true a b e = (ground arith, ground arith)

-- On a valid state, `check_ready_list` keeps exactly the listed ids whose target is still waited for,
-- has not been dropped and says that it is ready, in ascending order, and writes as many of them as fit
-- to the front of the buffer; it returns the number written, or `none` if that is 0, and leaves the rest
-- of the buffer, the wait list and the condvar alone.
pub check_ready_list_lem :
    (probe : Entry → Option Bool) (s : Inner) (ready : List ℕ)
    → IsValid s
    → (s' : Inner) × (ready' : List ℕ) × (check_ready_list probe s ready
        ≡ some (
          s',
          ready',
          if min (length ready) (length s'.ready_list) == 0
              then none
              else some (min (length ready) (length s'.ready_list)),
        ))
      × IsValid s'
      × ((w : ℕ)
          → (occurs w s'.ready_list ≡ true) ↔ ((occurs w s.ready_list ≡ true) × IsUp probe s w))
      × (s'.wait_list ≡ s.wait_list)
      × (s'.condvar ≡ s.condvar)
      × Copied (min (length ready) (length s'.ready_list)) 0 ready ready' s'.ready_list
check_ready_list_lem probe s ready v =
    let (s', ready', done, v', listed, waits, calls, copied) =
      check_ready_list_kept probe s ready v in
    (
      s',
      ready',
      done
          ∙ ap
              (λ ids. some (
                s',
                ready',
                if min (length ready) (length ids) == 0
                    then none
                    else some (min (length ready) (length ids)),
              ))
              (sym listed),
      v',
      (λ w.
          subst (λ ids. (occurs w ids ≡ true) ↔ ((occurs w s.ready_list ≡ true) × IsUp probe s w))
            (sym listed) (kept-IsUp probe s w)),
      waits,
      calls,
      subst (λ ids. Copied (min (length ready) (length ids)) 0 ready ready' ids) (sym listed)
          copied,
    )
