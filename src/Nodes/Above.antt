-- ===== src/Nodes/Above.antt =====
-- Nodes for the tests: an allocator that goes past every address in use, and a list of two messages.
use comm.Prelude.{
  ℕ, suc, ◌+◌, ◌≤◌, ◌≡◌, refl, none, some, false, [], ◌∷◌, arith, Map, lookup, ◌==◌, if_false, ◌∙◌,
}
use comm.Nodes.{null, blank, Ends, IsFresh}
use comm.Nodes.Messages.{Stores}

abbrev pub above {ℓ} : {V : Type ℓ} → Map V → ℕ
above [] = 1
above ((k, v) ∷ m) = suc (k + above m)

past_equal : (k n a : ℕ) → suc (k + n) ≤ a → (k == a) ≡ false
past_equal k n a h = ground arith

past_rest : (k n a : ℕ) → suc (k + n) ≤ a → n ≤ a
past_rest k n a h = omega arith

pub lookup-past {ℓ} : {V : Type ℓ} (m : Map V) (a : ℕ) → above m ≤ a → lookup a m ≡ none
lookup-past [] a h = refl
lookup-past ((k, v) ∷ m) a h =
    if_false (some v) (lookup a m) (past_equal k (above m) a h)
    ∙ lookup-past m a (past_rest k (above m) a h)

suc_positive : (n : ℕ) → (suc n == null) ≡ false
suc_positive n = ground arith

positive {ℓ} : {V : Type ℓ} (m : Map V) → (above m == null) ≡ false
positive [] = refl
positive ((k, v) ∷ m) = suc_positive (k + above m)

pub above-IsFresh {ℓ} : {T : Type ℓ} → IsFresh {T = T} above
above-IsFresh heap = (lookup-past heap (above heap) (omega arith), positive heap)

abbrev pub two_nodes : Ends ℕ
two_nodes = record {
  heap =
      (1, record { next = some 2; val = some 5 })
      ∷ (2, record { next = some 3; val = some 6 })
      ∷ (3, blank)
      ∷ [];
  read_end = 1;
  write_end = 3;
}

pub two_nodes-Stores : Stores two_nodes (5 ∷ 6 ∷ [])
two_nodes-Stores = record {
  cells = (1, 5) ∷ (2, 6) ∷ [];
  queue = record {
    linked = (refl, (refl, refl));
    apart = (refl, (refl, tt));
    head = refl;
    exact = λ w. refl;
    nonnull = refl;
  };
  same = refl;
}
