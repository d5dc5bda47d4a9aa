-- ===== src/SortedVec/Search.antt =====
-- The bisection of src/sortedvec.rs finds the place of a value in an ascending vector.
use comm.Prelude.{
  ℕ, zero, suc, ◌+◌, ◌-◌, ◌/◌, ◌%◌, ◌^◌, ◌≤◌, ◌<◌, ◌≡◌, some, [], ◌∷◌, arith, length, get_elem?,
  get_elem?-total, ltb, ◌==◌, if◌then◌else◌, Bool-cases, inl, inr,
}
use comm.SortedVec.{SortedVec, search_loop, search}

-- Every element of the list exceeds `x`.
abbrev pub Above : ℕ → SortedVec → Type 0
Above x [] = Unit
Above x (y ∷ ys) = (x < y) × Above x ys

-- Strictly ascending, so with no repetition.
abbrev pub IsSorted : SortedVec → Type 0
IsSorted [] = Unit
IsSorted (x ∷ xs) = Above x xs × IsSorted xs

-- How many elements come before the first that is not below `val`.
abbrev pub rank : ℕ → SortedVec → ℕ
rank val [] = 0
rank val (x ∷ xs) = if ltb x val then suc (rank val xs) else 0

pub rank-le-length : (val : ℕ) (xs : SortedVec) → rank val xs ≤ length xs
rank-le-length val [] = omega arith
rank-le-length val (x ∷ xs) = ground (arith, rank-le-length val xs)

pub Above-get : {x y : ℕ} (xs : SortedVec) (i : ℕ) → Above x xs → get_elem? xs i ≡ some y → x < y
Above-get [] i a e = cc
Above-get (z ∷ xs) zero a e = ground arith
Above-get (z ∷ xs) (suc i) a e = Above-get xs i a.1 e

-- In an ascending vector exactly the elements before the rank are below `val`.
pub lt_iff_before_rank :
    (val : ℕ) (xs : SortedVec) (i : ℕ) {x : ℕ}
    → IsSorted xs
    → get_elem? xs i ≡ some x
    → ltb x val ≡ ltb i (rank val xs)
lt_iff_before_rank val [] i s e = cc
lt_iff_before_rank val (y ∷ xs) zero s e = ground arith
lt_iff_before_rank val (y ∷ xs) (suc i) s e =
    ground (arith, Above-get xs i s.0 e, lt_iff_before_rank val xs i s.1 e)

-- The loop ends on the rank, from any range that holds it.
search_loop-rank :
    (xs : SortedVec) (val fuel left right : ℕ)
    → IsSorted xs
    → length xs < 2 ^ 63
    → left ≤ rank val xs
    → rank val xs ≤ right
    → right ≤ length xs
    → right - left < fuel
    → search_loop xs val fuel left right ≡ some (rank val xs)
unfolding search_loop
search_loop-rank xs val zero left right s small lo hi end enough = elim enough [ ]
search_loop-rank xs val (suc fuel) left right s small lo hi end enough =
    elim (Bool-cases (left == right)) [
      | inl e ↦ ground arith
      | inr ne ↦
          let middle = (left + right) % 2 ^ 64 / 2 in
          let step = (left + right) % 2 ^ 64 / 2 + (left + right) % 2 ^ 64 % 2 in
          let (x, here) = get_elem?-total xs middle (ground arith) in
          ground (
            arith,
            here,
            lt_iff_before_rank val xs middle s here,
            search_loop-rank xs val fuel left middle s small lo,
            search_loop-rank xs val fuel step right s small,
          )
    ]

-- On an ascending vector of fewer than `2 ^ 63` elements the bisection ends within its fuel, makes no
-- access out of bounds, and gives the number of elements below the value.
pub search-rank :
    (xs : SortedVec) (val : ℕ)
    → IsSorted xs
    → length xs < 2 ^ 63
    → search xs val ≡ some (rank val xs)
unfolding search
search-rank xs val s small =
    search_loop-rank xs val (suc (length xs)) 0 (length xs) s small (omega arith)
      (rank-le-length val xs) (omega arith) (omega arith)
