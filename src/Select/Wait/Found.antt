-- ===== src/Select/Wait/Found.antt =====
-- src/select/imp.rs: which ids `wait` and `wait_timeout` find, and what they reply.
use comm.Prelude.{
  ℕ, ◌≤◌, ◌≡◌, ◌↔◌, ◌⊎◌, refl, sym, subst, ◌∙◌, Bool, true, false, not, ◌&&◌, ◌||◌, Option, none,
  some, List, [], ◌∷◌, arith, length, get_elem?, ◌==◌, Bool-cases, inl, inr, min, occurs,
  contains_key,
}
use comm.Select.Inner.{Entry, Inner}
use comm.Select.Inner.Check.{Copied, IsUp}
use comm.Select.Wait.{Report}
use comm.Select.Wait.Loops.{has_ready, mentions, first_round}

-- What a call that comes back with a prefix of `n` ids leaves.
abbrev pub Back : (n : ℕ) (s' : Inner) (ready ready' : List ℕ) → Type 0
Back n s' ready ready' =
    (has_ready s' ≡ true)
    × (n ≡ min (length ready) (length s'.ready_list))
    × Copied n 0 ready ready' s'.ready_list

pub Back-of_Copied :
    (n m : ℕ) (s' : Inner) (ready ready' : List ℕ)
    → some n ≡ some m
    → has_ready s' ≡ true
    → Copied n 0 ready ready' s'.ready_list
    → n ≡ min (length ready) (length s'.ready_list)
    → Back m s' ready ready'
Back-of_Copied n m s' ready ready' e here copied size =
    let same : n ≡ m = cc in subst (λ t. Back t s' ready ready') same (here, size, copied)

-- A copy after one of no ids.
pub Copied-after :
    (n m : ℕ) (xs ys zs ids ids' : List ℕ)
    → (n == 0) ≡ true
    → Copied n 0 xs ys ids
    → Copied m 0 ys zs ids'
    → Copied m 0 xs zs ids'
Copied-after n m xs ys zs ids ids' e a b = (b.0 ∙ a.0, λ j. ground (arith, a.1 j, b.1 j))

-- No listed target is ready at the call.
abbrev pub NoneUp : (Entry → Option Bool) → Inner → Type 0
NoneUp probe s = (w : ℕ) → occurs w s.ready_list ≡ true → ¬ IsUp probe s w

-- The ids that a call finds: those that are listed and ready at the call; or, if there is none, those
-- of targets that are waited for in the first sleep that reports such a target.
abbrev pub IsFound : (Entry → Option Bool) → Inner → List (List Report) → ℕ → Type 0
IsFound probe s sleeps w =
    ((occurs w s.ready_list ≡ true) × IsUp probe s w)
    ⊎ (NoneUp probe s
        × (contains_key w s.wait_list ≡ true)
        × (mentions w (first_round s.wait_list sleeps) ≡ true))

-- What a `wait` replies.
pub record Waited (s s' : Inner) (ready ready' : List ℕ) (out : Option ℕ) : Type 0 where
  pub back : (n : ℕ) → out ≡ some n → Back n s' ready ready'
  pub asleep : out ≡ none → (has_ready s' ≡ false) × (s'.condvar ≡ s.condvar)

-- What a `wait_timeout` with a duration replies, and that it leaves the buffer alone if it slept.
pub record Timed (probe : Entry → Option Bool) (s s' : Inner) (ready ready' : List ℕ)
    (out : Option ℕ) : Type 0 where
  pub back : (n : ℕ) → out ≡ some n → 1 ≤ n → Back n s' ready ready'
  pub in_time :
      out ≡ none
      → (has_ready s' ≡ true)
        × ((length ready ≡ 0) ⊎ NoneUp probe s)
        × ((j : ℕ) → get_elem? ready' j ≡ get_elem? ready j)
  pub expired :
      out ≡ some 0
      → (has_ready s' ≡ false)
        × (s'.condvar ≡ s.condvar)
        × ((j : ℕ) → get_elem? ready' j ≡ get_elem? ready j)

some_listed : (s : Inner) → has_ready s ≡ true → (w : ℕ) × (occurs w s.ready_list ≡ true)
some_listed s e = go s.ready_list e
  where
    go : (ids : List ℕ) → not (length ids == 0) ≡ true → (w : ℕ) × (occurs w ids ≡ true)
    go [] e = cc
    go (x ∷ xs) e = (x, ground arith)

none_listed : (s : Inner) (w : ℕ) → has_ready s ≡ false → occurs w s.ready_list ≡ false
none_listed s w e = go s.ready_list e
  where
    go : (ids : List ℕ) → not (length ids == 0) ≡ false → occurs w ids ≡ false
    go [] e = refl
    go (x ∷ xs) e = absurd (ground arith)

contradiction : (a : Bool) → a ≡ true → a ≡ false → ⊥
contradiction a e f = ground arith

both_true : (a b : Bool) → a && b ≡ true → (a ≡ true) × (b ≡ true)
both_true a b e = (ground arith, ground arith)

pub untouched :
    (n : ℕ) (xs ys ids : List ℕ)
    → (n == 0) ≡ true
    → Copied n 0 xs ys ids
    → (j : ℕ) → get_elem? ys j ≡ get_elem? xs j
untouched n xs ys ids e c j = ground (arith, c.1 j)

module _ (probe : Entry → Option Bool) (s : Inner) where
  abbrev pub IsKept : Inner → Type 0
  IsKept checked =
      (w : ℕ)
      → (occurs w checked.ready_list ≡ true) ↔ ((occurs w s.ready_list ≡ true) × IsUp probe s w)

  pub kept_none : (checked : Inner) → IsKept checked → has_ready checked ≡ false → NoneUp probe s
  kept_none checked kept e w listed up =
      contradiction (occurs w checked.ready_list) ((kept w).1 (listed, up))
        (none_listed checked w e)

  -- From what the check keeps and what the loop adds to it.
  pub IsFound-ids :
      (checked after : Inner) (sleeps : List (List Report))
      → IsKept checked
      → checked.wait_list ≡ s.wait_list
      → ((w : ℕ)
          → occurs w after.ready_list
            ≡ (not (has_ready checked)
                && (contains_key w checked.wait_list
                    && mentions w (first_round checked.wait_list sleeps)))
              || occurs w checked.ready_list)
      → (w : ℕ) → (occurs w after.ready_list ≡ true) ↔ IsFound probe s sleeps w
  IsFound-ids checked after sleeps kept waits ids w = elim (Bool-cases (has_ready checked)) [
    | inl here ↦
        let same : occurs w after.ready_list ≡ occurs w checked.ready_list = ids w ∙ rw here refl in
        let (x, listed) = some_listed checked here in
        let up = (kept x).0 listed in
        (
          (λ e. inl ((kept w).0 (sym same ∙ e))),
          (λ f. elim f [
            | inl k ↦ same ∙ (kept w).1 k
            | inr (nobody, waited, mentioned) ↦ absurd (nobody x up.0 up.1)
          ]),
        )
    | inr empty ↦
        let nobody = kept_none checked kept empty in
        let same : occurs w after.ready_list
            ≡ contains_key w s.wait_list && mentions w (first_round s.wait_list sleeps) =
          ids w ∙ rw (empty, none_listed checked w empty, waits) (ground arith) in
        (
          (λ e.
              let (waited, mentioned) = both_true _ _ (sym same ∙ e) in
              inr (nobody, waited, mentioned)),
          (λ f. elim f [
            | inl (listed, up) ↦ absurd (nobody w listed up)
            | inr (_, waited, mentioned) ↦ same ∙ rw (waited, mentioned) refl
          ]),
        )
  ]
