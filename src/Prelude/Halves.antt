-- ===== src/Prelude/Halves.antt =====
-- A 64-bit word that holds two numbers of 32 bits.
use Prim.Native.Nat.{
  ℕ, zero, suc, ◌+◌, ◌*◌, ◌/◌, ◌%◌, ◌^◌, ◌≤◌, ◌<◌, max, bit_or, digits, bit_or-bitwise,
}
use mathlib.Core.Path.{◌≡◌, refl, sym, ◌∙◌, ap}
use native.Mathlib.Nat.{pow-suc, mul_assoc}
use native.Mathlib.Omega.{arith}

abbrev or_digits : ℕ → ℕ → ℕ → ℕ
or_digits n a b = digits (λ b. b) max n a b

or_digits_enough : (n m a b : ℕ) → a ≤ n → a ≤ m → or_digits n a b ≡ or_digits m a b
or_digits_enough zero zero zero b p q = refl
or_digits_enough zero (suc m) zero b p q = refl
or_digits_enough (suc n) zero zero b p q = refl
or_digits_enough (suc n) (suc m) zero b p q = refl
or_digits_enough zero m (suc a) b p q = elim p [ ]
or_digits_enough (suc n) zero (suc a) b p q = elim q [ ]
or_digits_enough (suc n) (suc m) (suc a) b p q =
    omega (arith, or_digits_enough n m (suc a / 2) (b / 2) (omega arith) (omega arith))

pub bit_or_zero : (b : ℕ) → bit_or 0 b ≡ b
bit_or_zero b = bit_or-bitwise 0 b

bit_or_double : (a b : ℕ) → bit_or a b ≡ bit_or (a / 2) (b / 2) * 2 + max (a % 2) (b % 2)
bit_or_double zero b = omega (arith, bit_or_zero b, bit_or_zero (b / 2))
bit_or_double (suc a) b = omega (
  arith,
  bit_or-bitwise (suc a) b,
  bit_or-bitwise (suc a / 2) (b / 2),
  or_digits_enough a (suc a / 2) (suc a / 2) (b / 2) (omega arith) (omega arith),
)

twice : (k h : ℕ) → h * 2 ^ suc k ≡ h * 2 ^ k * 2
twice k h = ap (λ n. h * n) (pow-suc 2 k) ∙ sym (mul_assoc h (2 ^ k) 2)

half_shift : (k h : ℕ) → h * 2 ^ suc k / 2 ≡ h * 2 ^ k
half_shift k h = let e : h * 2 ^ suc k ≡ h * 2 ^ k * 2 = twice k h in omega (arith, e)

low_shift : (k h : ℕ) → h * 2 ^ suc k % 2 ≡ 0
low_shift k h = let e : h * 2 ^ suc k ≡ h * 2 ^ k * 2 = twice k h in omega (arith, e)

-- A number below `2 ^ k` and a multiple of `2 ^ k` have no digit in common.
pub bit_or-shift : (k low high : ℕ) → low < 2 ^ k → bit_or low (high * 2 ^ k) ≡ low + high * 2 ^ k
bit_or-shift zero low high h =
    let e : low ≡ 0 = omega arith in
    ap (λ n. bit_or n (high * 1)) e ∙ bit_or_zero (high * 1) ∙ omega (arith, e)
bit_or-shift (suc k) low high h = omega (
  arith,
  bit_or_double low (high * 2 ^ suc k),
  ap (bit_or (low / 2)) (half_shift k high),
  twice k high,
  low_shift k high,
  bit_or-shift k (low / 2) high (omega (arith, pow-suc 2 k)),
)

module _ (low high : ℕ) (l : low < 2 ^ 32) (h : high < 2 ^ 32) where
  -- The lower half of a word is its remainder, and the higher half its quotient.
  pub bit_or-low : bit_or low (high * 2 ^ 32) % 2 ^ 32 ≡ low
  bit_or-low = omega (arith, bit_or-shift 32 low high l)

  pub bit_or-high : bit_or low (high * 2 ^ 32) / 2 ^ 32 % 2 ^ 32 ≡ high
  bit_or-high = omega (arith, bit_or-shift 32 low high l)

-- A word is made of its halves.
pub bit_or-halves : (word : ℕ) → bit_or (word % 2 ^ 32) (word / 2 ^ 32 * 2 ^ 32) ≡ word
bit_or-halves word = omega (arith, bit_or-shift 32 (word % 2 ^ 32) (word / 2 ^ 32) (omega arith))
