-- ===== src/Prelude/Counts.antt =====
-- How often a number occurs in a list, and what removals do to that.
use Prim.Native.Nat.{ℕ, zero, suc, ◌+◌, ◌≤◌, ◌<◌}
use mathlib.Core.Path.{◌≡◌, refl}
use mathlib.Core.Bool.{Bool, false, ◌||◌}
use mathlib.Core.List.{List, [], ◌∷◌, ◌++◌}
use mathlib.Core.Option.{some}
use native.Mathlib.Omega.{arith}
use comm.Prelude.Tests.{◌==◌, if◌then◌else◌}
use comm.Prelude.Lists.{length, get_elem?, drop, last_of, but_last, swap_remove}

abbrev pub count : ℕ → List ℕ → ℕ
count a [] = 0
count a (x ∷ xs) = if x == a then suc (count a xs) else count a xs

abbrev pub occurs : ℕ → List ℕ → Bool
occurs a [] = false
occurs a (x ∷ xs) = x == a || occurs a xs

pub count-append : (a : ℕ) (xs ys : List ℕ) → count a (xs ++ ys) ≡ count a xs + count a ys
count-append a [] ys = omega arith
count-append a (x ∷ xs) ys = ground (arith, count-append a xs ys)

count-last : (a x : ℕ) (xs : List ℕ) → count a (last_of x xs ∷ but_last x xs) ≡ count a (x ∷ xs)
count-last a x [] = refl
count-last a x (y ∷ ys) = ground (arith, count-last a y ys)

occurs-last : (a x : ℕ) (xs : List ℕ) → occurs a (last_of x xs ∷ but_last x xs) ≡ occurs a (x ∷ xs)
occurs-last a x [] = refl
occurs-last a x (y ∷ ys) = ground (arith, occurs-last a y ys)

length-but_last : (x : ℕ) (xs : List ℕ) → length (but_last x xs) ≡ length xs
length-but_last x [] = refl
length-but_last x (y ∷ ys) = omega (arith, length-but_last y ys)

pub length-swap_remove :
    (xs : List ℕ) (i : ℕ) → i < length xs → length (swap_remove xs i) + 1 ≡ length xs
length-swap_remove [] i h = elim h [ ]
length-swap_remove (x ∷ []) zero h = refl
length-swap_remove (x ∷ y ∷ ys) zero h = omega (arith, length-but_last y ys)
length-swap_remove (x ∷ xs) (suc i) h = omega (arith, length-swap_remove xs i (omega arith))

pub count-swap_remove :
    (a : ℕ) (xs : List ℕ) (i : ℕ) {x : ℕ}
    → get_elem? xs i ≡ some x
    → count a (swap_remove xs i) + (if x == a then 1 else 0) ≡ count a xs
count-swap_remove a [] i e = cc
count-swap_remove a (y ∷ []) zero e = ground arith
count-swap_remove a (y ∷ z ∷ zs) zero e = ground (arith, count-last a z zs)
count-swap_remove a (y ∷ xs) (suc i) e = ground (arith, count-swap_remove a xs i e)

-- The elements before the one removed stay in place.
pub get_elem?-swap_remove :
    (xs : List ℕ) (i j : ℕ)
    → j < i
    → i < length xs
    → get_elem? (swap_remove xs i) j ≡ get_elem? xs j
get_elem?-swap_remove [] i j h k = elim k [ ]
get_elem?-swap_remove (x ∷ xs) zero j h k = elim h [ ]
get_elem?-swap_remove (x ∷ xs) (suc i) zero h k = refl
get_elem?-swap_remove (x ∷ xs) (suc i) (suc j) h k =
    get_elem?-swap_remove xs i j (omega arith) (omega arith)

-- What stands from `i` on loses one element there.
pub occurs-swap_remove :
    (a : ℕ) (xs : List ℕ) (i : ℕ)
    → i < length xs
    → occurs a (drop i (swap_remove xs i)) ≡ occurs a (drop (suc i) xs)
occurs-swap_remove a [] i h = elim h [ ]
occurs-swap_remove a (x ∷ []) zero h = refl
occurs-swap_remove a (x ∷ y ∷ ys) zero h = occurs-last a y ys
occurs-swap_remove a (x ∷ xs) (suc i) h = occurs-swap_remove a xs i (omega arith)

pub occurs-drop :
    (a : ℕ) (xs : List ℕ) (i : ℕ) {x : ℕ}
    → get_elem? xs i ≡ some x
    → occurs a (drop i xs) ≡ (x == a) || occurs a (drop (suc i) xs)
occurs-drop a [] i e = cc
occurs-drop a (y ∷ xs) zero e = ground arith
occurs-drop a (y ∷ xs) (suc i) e = occurs-drop a xs i e

pub drop-length {ℓ} : {A : Type ℓ} (xs : List A) (i : ℕ) → length xs ≤ i → drop i xs ≡ []
drop-length [] zero h = refl
drop-length [] (suc i) h = refl
drop-length (x ∷ xs) zero h = elim h [ ]
drop-length (x ∷ xs) (suc i) h = drop-length xs i (omega arith)
