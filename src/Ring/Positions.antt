-- ===== src/Ring/Positions.antt =====
-- Two positions on a 64-bit machine tell how many messages lie between them.
use comm.Prelude.{ℕ, ◌+◌, ◌-◌, ◌%◌, ◌^◌, ◌≤◌, ◌<◌, ◌≡◌, arith, ◌==◌, sub_usize, pow_pos}
use native.Mathlib.Nat.{pow-le-pow_right}

module _ (k r n : ℕ) (fits : k ≤ 63) (range : r < 2 ^ 64) (room : n ≤ 2 ^ k) where
  bound : 2 ^ k ≤ 2 ^ 63
  bound = pow-le-pow_right {n = 2} (omega arith) fits

  -- The difference of the positions is the number of messages.
  pub sub-positions : sub_usize ((r + n) % 2 ^ 64) r ≡ n
  sub-positions = omega (arith, bound)

  -- `write_pos - read_pos == cap_mask + 1`
  pub full_test : (sub_usize ((r + n) % 2 ^ 64) r == 2 ^ k - 1 + 1) ≡ (n == 2 ^ k)
  full_test = ground (arith, sub-positions, pow_pos k)

  -- `write_pos == read_pos`
  pub empty_test : ((r + n) % 2 ^ 64 == r) ≡ (n == 0)
  empty_test = ground (arith, bound)
