-- ===== src/SortedVec/Set.antt =====
-- The methods of src/sortedvec.rs are those of a finite set of numbers.
use comm.Prelude.{
  ℕ, ◌^◌, ◌≤◌, ◌<◌, ◌≡◌, refl, true, false, ◌&&◌, ◌||◌, some, [], ◌∷◌, arith, length, insert_at,
  remove_at, ltb, ◌==◌, ◌!=◌, not, if◌then◌else◌, occurs,
}
use comm.SortedVec.{SortedVec, absent_at, present_at, insert, contains, remove}
use comm.SortedVec.Search.{Above, IsSorted, rank, search-rank}

-- The ascending vector with `val` put in, and with `val` left out.
unfoldable pub with : ℕ → SortedVec → SortedVec
with val [] = val ∷ []
with val (x ∷ xs) = if ltb x val then x ∷ with val xs else if x == val then x ∷ xs else val ∷ x ∷ xs

unfoldable pub without : ℕ → SortedVec → SortedVec
without val [] = []
without val (x ∷ xs) = if x == val then xs else x ∷ without val xs

not_occurs_of_Above : (x val : ℕ) (xs : SortedVec) → Above x xs → val ≤ x → occurs val xs ≡ false
not_occurs_of_Above x val [] a h = refl
not_occurs_of_Above x val (y ∷ xs) a h = ground (arith, not_occurs_of_Above x val xs a.1 h)

Above-trans : (x y : ℕ) (xs : SortedVec) → x ≤ y → Above y xs → Above x xs
Above-trans x y [] h a = tt
Above-trans x y (z ∷ xs) h a = (omega arith, Above-trans x y xs h a.1)

Above-with : (x val : ℕ) (xs : SortedVec) → x < val → Above x xs → Above x (with val xs)
unfolding with
Above-with x val [] h a = (h, tt)
Above-with x val (y ∷ xs) h a = ground (arith, Above-with x val xs h a.1)

Above-without : (x val : ℕ) (xs : SortedVec) → Above x xs → Above x (without val xs)
unfolding without
Above-without x val [] a = tt
Above-without x val (y ∷ xs) a = ground (arith, Above-without x val xs a.1)

with-IsSorted : (val : ℕ) (xs : SortedVec) → IsSorted xs → IsSorted (with val xs)
unfolding with
with-IsSorted val [] s = (tt, tt)
with-IsSorted val (x ∷ xs) s =
    ground (arith, with-IsSorted val xs s.1, Above-with x val xs, Above-trans val x xs)

without-IsSorted : (val : ℕ) (xs : SortedVec) → IsSorted xs → IsSorted (without val xs)
unfolding without
without-IsSorted val [] s = tt
without-IsSorted val (x ∷ xs) s =
    ground (arith, without-IsSorted val xs s.1, Above-without x val xs s.0)

occurs-with : (w val : ℕ) (xs : SortedVec) → occurs w (with val xs) ≡ (val == w) || occurs w xs
unfolding with
occurs-with w val [] = refl
occurs-with w val (x ∷ xs) = ground (arith, occurs-with w val xs)

occurs-without :
    (w val : ℕ) (xs : SortedVec)
    → IsSorted xs
    → occurs w (without val xs) ≡ (val != w) && occurs w xs
unfolding without
occurs-without w val [] s = ground arith
occurs-without w val (x ∷ xs) s =
    ground (arith, occurs-without w val xs s.1, not_occurs_of_Above x w xs s.0)

-- What the bisection finds decides membership.
present_at-rank :
    (val : ℕ) (xs : SortedVec)
    → IsSorted xs
    → present_at xs val (rank val xs) ≡ some (occurs val xs)
unfolding present_at
present_at-rank val [] s = ground arith
present_at-rank val (x ∷ xs) s =
    ground (arith, present_at-rank val xs s.1, not_occurs_of_Above x val xs s.0)

absent_at-rank :
    (val : ℕ) (xs : SortedVec)
    → IsSorted xs
    → absent_at xs val (rank val xs) ≡ some (not (occurs val xs))
unfolding absent_at
absent_at-rank val [] s = ground arith
absent_at-rank val (x ∷ []) s = ground arith
absent_at-rank val (x ∷ y ∷ xs) s =
    ground (arith, absent_at-rank val (y ∷ xs) s.1, not_occurs_of_Above x val (y ∷ xs) s.0)

insert_at-rank :
    (val : ℕ) (xs : SortedVec)
    → IsSorted xs
    → occurs val xs ≡ false
    → insert_at xs (rank val xs) val ≡ some (with val xs)
unfolding with
insert_at-rank val [] s e = refl
insert_at-rank val (x ∷ xs) s e = ground (arith, insert_at-rank val xs s.1)

with_of_occurs : (val : ℕ) (xs : SortedVec) → IsSorted xs → occurs val xs ≡ true → with val xs ≡ xs
unfolding with
with_of_occurs val [] s e = cc
with_of_occurs val (x ∷ xs) s e =
    ground (arith, with_of_occurs val xs s.1, not_occurs_of_Above x val xs s.0)

without_of_not_occurs : (val : ℕ) (xs : SortedVec) → occurs val xs ≡ false → without val xs ≡ xs
unfolding without
without_of_not_occurs val [] e = refl
without_of_not_occurs val (x ∷ xs) e = ground (arith, without_of_not_occurs val xs)

remove_at-rank :
    (val : ℕ) (xs : SortedVec)
    → IsSorted xs
    → occurs val xs ≡ true
    → remove_at xs (rank val xs) ≡ some (without val xs)
unfolding without
remove_at-rank val [] s e = cc
remove_at-rank val (x ∷ xs) s e =
    ground (arith, remove_at-rank val xs s.1, not_occurs_of_Above x val xs s.0)

-- On an ascending vector of fewer than `2 ^ 63` elements, `insert` does not panic: the result is the
-- vector with the value put in, it is ascending, and its elements are the old ones and the value.
pub insert_lem :
    (xs : SortedVec) (val : ℕ)
    → IsSorted xs
    → length xs < 2 ^ 63
    → (insert xs val ≡ some (with val xs))
      × IsSorted (with val xs)
      × ((w : ℕ) → occurs w (with val xs) ≡ (val == w) || occurs w xs)
unfolding insert
insert_lem xs val s small = (found, with-IsSorted val xs s, λ w. occurs-with w val xs)
  where
    found : insert xs val ≡ some (with val xs)
    found =
        rw (search-rank xs val s small, absent_at-rank val xs s)
          (ground (arith, insert_at-rank val xs s, with_of_occurs val xs s))

-- On an ascending vector of fewer than `2 ^ 63` elements, `contains` does not panic and decides
-- whether the value occurs.
pub contains-occurs :
    (xs : SortedVec) (val : ℕ)
    → IsSorted xs
    → length xs < 2 ^ 63
    → contains xs val ≡ some (occurs val xs)
unfolding contains
contains-occurs xs val s small = rw (search-rank xs val s small) (present_at-rank val xs s)

-- On an ascending vector of fewer than `2 ^ 63` elements, `remove` does not panic and says whether the
-- value occurred; what is left is ascending, and its elements are the old ones but the value.
pub remove_lem :
    (xs : SortedVec) (val : ℕ)
    → IsSorted xs
    → length xs < 2 ^ 63
    → (remove xs val ≡ some (without val xs, occurs val xs))
      × IsSorted (without val xs)
      × ((w : ℕ) → occurs w (without val xs) ≡ (val != w) && occurs w xs)
unfolding remove
remove_lem xs val s small = (found, without-IsSorted val xs s, λ w. occurs-without w val xs s)
  where
    found : remove xs val ≡ some (without val xs, occurs val xs)
    found =
        rw (search-rank xs val s small, present_at-rank val xs s)
          (ground (arith, remove_at-rank val xs s, without_of_not_occurs val xs))
