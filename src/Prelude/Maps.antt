-- ===== src/Prelude/Maps.antt =====
-- `HashMap<usize, V>` as an association list, and finite updates of a function.
use Prim.Native.Nat.{ℕ}
use mathlib.Core.Path.{◌≡◌, refl}
use mathlib.Core.Bool.{Bool, true, false, ◌||◌, ◌&&◌, false≢true}
use mathlib.Core.List.{List, [], ◌∷◌}
use mathlib.Core.Option.{Option, none, some}
use native.Mathlib.Omega.{arith}
use comm.Prelude.Results.{is_some}
use comm.Prelude.Tests.{◌==◌, ◌!=◌, if◌then◌else◌, Bool-cases}
use mathlib.Core.Logic.{inl, inr}

abbrev pub Map {ℓ} : Type ℓ → Type ℓ
Map V = List (ℕ × V)

module _ {ℓ} {V : Type ℓ} where
  abbrev pub lookup : ℕ → Map V → Option V
  lookup k [] = none
  lookup k ((j, v) ∷ m) = if j == k then some v else lookup k m

  abbrev pub contains_key : ℕ → Map V → Bool
  contains_key k [] = false
  contains_key k ((j, v) ∷ m) = j == k || contains_key k m

  abbrev pub insert_key : ℕ → V → Map V → Map V
  insert_key k v [] = (k, v) ∷ []
  insert_key k v ((j, w) ∷ m) = if j == k then (k, v) ∷ m else (j, w) ∷ insert_key k v m

  abbrev pub remove_key : ℕ → Map V → Map V
  remove_key k [] = []
  remove_key k ((j, v) ∷ m) = let rest = remove_key k m in if j == k then rest else (j, v) ∷ rest

  abbrev pub is_empty : List V → Bool
  is_empty [] = true
  is_empty (x ∷ xs) = false

  pub contains_key-insert :
      (k j : ℕ) (v : V) (m : Map V)
      → contains_key j (insert_key k v m) ≡ (k == j) || contains_key j m
  contains_key-insert k j v [] = refl
  contains_key-insert k j v ((i, w) ∷ m) = ground (arith, contains_key-insert k j v m)

  pub contains_key-remove :
      (k j : ℕ) (m : Map V) → contains_key j (remove_key k m) ≡ (k != j) && contains_key j m
  contains_key-remove k j [] = ground arith
  contains_key-remove k j ((i, w) ∷ m) = ground (arith, contains_key-remove k j m)

  pub lookup-insert :
      (k j : ℕ) (v : V) (m : Map V)
      → lookup j (insert_key k v m) ≡ (if k == j then some v else lookup j m)
  lookup-insert k j v [] = refl
  lookup-insert k j v ((i, w) ∷ m) = ground (arith, lookup-insert k j v m)

  pub lookup-remove :
      (k j : ℕ) (m : Map V) → lookup j (remove_key k m) ≡ (if k == j then none else lookup j m)
  lookup-remove k j [] = ground arith
  lookup-remove k j ((i, w) ∷ m) = ground (arith, lookup-remove k j m)

  pub contains_key-lookup : (k : ℕ) (m : Map V) → contains_key k m ≡ is_some (lookup k m)
  contains_key-lookup k [] = refl
  contains_key-lookup k ((i, w) ∷ m) = ground (arith, contains_key-lookup k m)

  -- A key that the map holds has a value.
  pub lookup-total : (k : ℕ) (m : Map V) → contains_key k m ≡ true → (v : V) × (lookup k m ≡ some v)
  lookup-total k [] h = absurd (false≢true h)
  lookup-total k ((j, v) ∷ m) h = elim (Bool-cases (j == k)) [
    | inl e ↦ (v, rw e)
    | inr e ↦ let (w, found) = lookup-total k m (ground arith) in (w, rw e found)
  ]

  abbrev pub update : (ℕ → V) → ℕ → V → ℕ → V
  update f p v q = if p == q then v else f q

  pub update_at : (f : ℕ → V) (p q : ℕ) (v : V) → (p == q) ≡ true → update f p v q ≡ v
  update_at f p q v e = rw e

  pub update_off : (f : ℕ → V) (p q : ℕ) (v : V) → (p == q) ≡ false → update f p v q ≡ f q
  update_off f p q v e = rw e
