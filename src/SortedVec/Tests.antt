-- ===== src/SortedVec/Tests.antt =====
-- The methods of src/sortedvec.rs on a vector of three ids.
use comm.Prelude.{ℕ, ◌≡◌, refl, true, false, some, [], ◌∷◌, ◌&&◌, ◌||◌, arith, ◌==◌, ◌!=◌, occurs}
use comm.SortedVec.{SortedVec, insert, contains, remove, search, search_loop, absent_at, present_at}
use comm.SortedVec.Search.{IsSorted, rank, search-rank}
use comm.SortedVec.Set.{with, without, insert_lem, contains-occurs, remove_lem}

abbrev three : SortedVec
three = 8 ∷ 24 ∷ 40 ∷ []

three-IsSorted : IsSorted three
three-IsSorted = ((omega arith, (omega arith, tt)), ((omega arith, tt), (tt, tt)))

inserted : insert three 32 ≡ some (8 ∷ 24 ∷ 32 ∷ 40 ∷ [])
unfolding insert search search_loop absent_at
inserted = refl

removed : remove three 24 ≡ some (8 ∷ 40 ∷ [], true)
unfolding remove search search_loop present_at
removed = refl

missing : contains three 32 ≡ some false
unfolding contains search search_loop present_at
missing = refl

search-rank_example : search three 32 ≡ some (rank 32 three)
search-rank_example = search-rank three 32 three-IsSorted (omega arith)

insert_lem_example :
    (insert three 32 ≡ some (with 32 three))
    × IsSorted (with 32 three)
    × ((w : ℕ) → occurs w (with 32 three) ≡ (32 == w) || occurs w three)
insert_lem_example = insert_lem three 32 three-IsSorted (omega arith)

contains-occurs_example : contains three 24 ≡ some (occurs 24 three)
contains-occurs_example = contains-occurs three 24 three-IsSorted (omega arith)

remove_lem_example :
    (remove three 24 ≡ some (without 24 three, occurs 24 three))
    × IsSorted (without 24 three)
    × ((w : ℕ) → occurs w (without 24 three) ≡ (24 != w) && occurs w three)
remove_lem_example = remove_lem three 24 three-IsSorted (omega arith)
