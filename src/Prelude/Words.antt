-- ===== src/Prelude/Words.antt =====
-- `usize` on a 64-bit target and its halves: wrapping arithmetic, masks and powers of two.
use Prim.Native.Nat.{ℕ, zero, suc, ◌+◌, ◌-◌, ◌*◌, ◌/◌, ◌%◌, ◌^◌, ◌≤◌, ◌<◌, ◌∣◌, min, bit_and}
use Prim.Native.Nat.{digits, bit_and-bitwise}
use mathlib.Core.Path.{◌≡◌, refl, ap, ◌≡⟨◌⟩◌, ◌∎}
use native.Mathlib.Nat.{
  pow-suc, one-le-pow, dvd_refl, dvd-mul_right_of_dvd, mul-add-mod_self_left, mod-eq_of_lt, mod-lt,
  div-add-mod,
}
use native.Mathlib.Decide.{ℕ_discrete}
use native.Mathlib.Omega.{arith}

abbrev pub usize_mod : ℕ
usize_mod = 2 ^ 64

-- `a + b` and `a - b` on `usize` as a release build computes them.
abbrev pub add_usize : ℕ → ℕ → ℕ
add_usize a b = (a + b) % usize_mod

abbrev pub sub_usize : ℕ → ℕ → ℕ
sub_usize a b = (a + usize_mod - b) % usize_mod

-- Bitwise and, one binary digit at a time.
abbrev and_digits : ℕ → ℕ → ℕ → ℕ
and_digits n a b = digits (λ _. zero) min n a b

digits_enough : (n m a b : ℕ) → a ≤ n → a ≤ m → and_digits n a b ≡ and_digits m a b
digits_enough zero zero zero b p q = refl
digits_enough zero (suc m) zero b p q = refl
digits_enough (suc n) zero zero b p q = refl
digits_enough (suc n) (suc m) zero b p q = refl
digits_enough zero m (suc a) b p q = elim p [ ]
digits_enough (suc n) zero (suc a) b p q = elim q [ ]
digits_enough (suc n) (suc m) (suc a) b p q =
    omega (arith, digits_enough n m (suc a / 2) (b / 2) (omega arith) (omega arith))

bit_and_zero : (b : ℕ) → bit_and 0 b ≡ 0
bit_and_zero b = bit_and-bitwise 0 b

bit_and_double : (a b : ℕ) → bit_and a b ≡ bit_and (a / 2) (b / 2) * 2 + min (a % 2) (b % 2)
bit_and_double zero b = omega (arith, bit_and_zero b, bit_and_zero (b / 2))
bit_and_double (suc a) b = omega (
  arith,
  bit_and-bitwise (suc a) b,
  bit_and-bitwise (suc a / 2) (b / 2),
  digits_enough a (suc a / 2) (suc a / 2) (b / 2) (omega arith) (omega arith),
)

and_zero_below : (n a : ℕ) → a ≤ n → bit_and a 0 ≡ 0
and_zero_below zero a h = let e : a ≡ 0 = omega arith in rw (e, bit_and_zero)
and_zero_below (suc n) zero h = bit_and_zero 0
and_zero_below (suc n) (suc a) h =
    omega (arith, bit_and_double (suc a) 0, and_zero_below n (suc a / 2) (omega arith))

-- The remainder by an even number, from the last bit and the rest.
mod_double : (p a : ℕ) → 0 < p → a % (p * 2) ≡ a / 2 % p * 2 + a % 2
mod_double p a h =
    a % (p * 2)
    ≡⟨ ap (λ (t : ℕ). t % (p * 2)) regroup ⟩
      (p * 2 * (a / 2 / p) + (a / 2 % p * 2 + a % 2)) % (p * 2)
    ≡⟨ mul-add-mod_self_left (p * 2) (a / 2 / p) _ ⟩ (a / 2 % p * 2 + a % 2) % (p * 2)
    ≡⟨ mod-eq_of_lt (omega (arith, mod-lt (a / 2) h)) ⟩ a / 2 % p * 2 + a % 2 ∎
  where
    regroup : a ≡ p * 2 * (a / 2 / p) + (a / 2 % p * 2 + a % 2)
    regroup = omega (arith, div-add-mod (a / 2) p)

-- A mask of `k` ones keeps the low `k` bits.
pub bit_and-mask : (k a : ℕ) → bit_and a (2 ^ k - 1) ≡ a % 2 ^ k
bit_and-mask zero a = omega (arith, and_zero_below a a (omega arith))
bit_and-mask (suc k) a = ground (
  arith,
  bit_and_double a (2 ^ suc k - 1),
  bit_and-mask k (a / 2),
  pow-suc 2 k,
  one-le-pow k 2,
  mod_double (2 ^ k) a (one-le-pow k 2 (omega arith)),
)

pub pow_pos : (k : ℕ) → 0 < 2 ^ k
pow_pos k = one-le-pow k 2 (omega arith)

pub pow-dvd : (k j : ℕ) → k ≤ j → (2 ^ k) ∣ (2 ^ j)
pow-dvd k zero h = let e : k ≡ 0 = omega arith in rw e (dvd_refl 1)
pow-dvd k (suc j) h = elim (ℕ_discrete k (suc j)) [
  | yes e ↦ rw e (dvd_refl (2 ^ suc j))
  | no ne ↦ rw (pow-suc 2 j) (dvd-mul_right_of_dvd (2 ^ k) (pow-dvd k j (omega arith)) 2)
]
