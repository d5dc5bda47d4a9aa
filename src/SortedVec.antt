-- ===== src/SortedVec.antt =====
-- src/sortedvec.rs: a set of numbers as an ascending `Vec`, searched by bisection.
-- `SortedVec<T>` is used at `T = usize` only, and so it is modelled. `none` is a panic (an index or
-- a position out of bounds) or a loop that outlives its fuel.
pub mod Search
pub mod Set
mod Tests
use comm.Prelude.{
  ℕ, zero, suc, ◌+◌, ◌/◌, ◌%◌, Bool, true, false, ◌&&◌, ◌||◌, Option, none, some, List, [], ◌>>=◌,
  length, get_elem?, insert_at, remove_at, ltb, leb, ◌==◌, ◌!=◌, if◌then◌else◌, add_usize,
}

abbrev pub SortedVec : Type 0
SortedVec = List ℕ

abbrev pub new : SortedVec
new = []

-- The `while` loop that the three methods share.
pub search_loop : SortedVec → ℕ → (fuel left right : ℕ) → Option ℕ
search_loop items val zero left right = none
search_loop items val (suc fuel) left right =
    let sum = add_usize left right in
    elim (left == right) [
      | true ↦ some left
      | false ↦ elim (get_elem? items (sum / 2)) [
        | none ↦ none
        | some x ↦ elim (leb val x) [
          | true ↦ search_loop items val fuel left (sum / 2)
          | false ↦ search_loop items val fuel (sum / 2 + sum % 2) right
        ]
      ]
    ]

-- Each round shortens the range, so one round more than the length is enough.
pub search : SortedVec → ℕ → Option ℕ
search items val = search_loop items val (suc (length items)) 0 (length items)

-- `left == len || data[left] != val`, where `data[left]` is not read at the end
pub absent_at : SortedVec → ℕ → ℕ → Option Bool
absent_at items val left =
    if (length items == 0) || (left == length items)
    then some true
    else get_elem? items left >>= λ x. some (x != val)

pub insert : SortedVec → ℕ → Option SortedVec
insert items val = search items val >>= λ left.
    absent_at items val left >>= λ absent. if absent then insert_at items left val else some items

-- `left < len && data[left] == val`
pub present_at : SortedVec → ℕ → ℕ → Option Bool
present_at items val left =
    if ltb left (length items) then (get_elem? items left >>= λ x. some (x == val)) else some false

pub contains : SortedVec → ℕ → Option Bool
contains items val = search items val >>= present_at items val

pub remove : SortedVec → ℕ → Option (SortedVec × Bool)
remove items val = search items val >>= λ left. present_at items val left >>= λ present.
    if present then (remove_at items left >>= λ rest. some (rest, true)) else some (items, false)
