-- ===== src/Prelude/Powers.antt =====
-- Powers of two as the capacity and the size of a buffer, which src/spsc/bounded/imp.rs, src/mpsc/bounded_fast/imp.rs
-- and src/spmc/bounded_fast/imp.rs compute with the checked functions of the standard library.
use comm.Prelude.{
  ℕ, zero, suc, ◌+◌, ◌-◌, ◌*◌, ◌^◌, ◌≤◌, ◌≡◌, refl, sym, ◌∙◌, ap, Option, none, some, arith, leb,
  if◌then◌else◌, Bool-cases, inl, inr,
}
use native.Mathlib.Nat.{pow-suc}

-- `checked_next_power_of_two`: the first power of two that is at least `n`, if it fits into a word.
-- With `cap = 2 ^ (64 - fuel)` to begin with, 64 rounds try every power below `2 ^ 64`.
unfoldable next_power : (fuel cap n : ℕ) → Option ℕ
next_power zero cap n = none
next_power (suc fuel) cap n = if leb n cap then some cap else next_power fuel (cap * 2) n

unfoldable pub checked_next_power_of_two : ℕ → Option ℕ
unfolding next_power
checked_next_power_of_two n = next_power 64 1 n

-- `checked_mul(..).unwrap_or(!0)`
abbrev pub saturating_size : ℕ → ℕ → ℕ
saturating_size cap size_of = if leb (2 ^ 64) (cap * size_of) then 2 ^ 64 - 1 else cap * size_of

-- The loop finds the first power that is enough, from any power below which none is.
next_power_lem :
    (fuel j n : ℕ)
    → fuel + j ≡ 64
    → n ≤ 2 ^ 63
    → ((i : ℕ) → n ≤ 2 ^ i → j ≤ i)
    → j ≤ 63
    → (k : ℕ) × (next_power fuel (2 ^ j) n ≡ some (2 ^ k))
      × (k ≤ 63)
      × (n ≤ 2 ^ k)
      × ((i : ℕ) → n ≤ 2 ^ i → k ≤ i)
unfolding next_power
next_power_lem zero j n e small below le = absurd (omega arith)
next_power_lem (suc fuel) j n e small below le = elim (Bool-cases (leb n (2 ^ j))) [
  | inl enough ↦ (j, rw enough refl, le, ground arith, below)
  | inr short ↦
      let more : (i : ℕ) → n ≤ 2 ^ i → suc j ≤ i = λ i h. ground (arith, below i h) in
      let (k, found, le', bound, least) =
        next_power_lem fuel (suc j) n (omega arith) small more (omega (arith, more 63 small)) in
      (k, rw short (ap (λ t. next_power fuel t n) (sym (pow-suc 2 j)) ∙ found), le', bound, least)
]

-- Up to `2 ^ 63` there is such a power, and it is the least.
pub next_power_of_two_lem :
    (n : ℕ)
    → n ≤ 2 ^ 63
    → (k : ℕ) × (checked_next_power_of_two n ≡ some (2 ^ k))
      × (k ≤ 63)
      × (n ≤ 2 ^ k)
      × ((i : ℕ) → n ≤ 2 ^ i → k ≤ i)
unfolding checked_next_power_of_two
next_power_of_two_lem n small = next_power_lem 64 0 n refl small (λ i h. omega arith) (omega arith)
