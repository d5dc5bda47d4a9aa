-- ===== src/Channel/Ends.antt =====
-- The numbers of the living ends, as the packets count them in a word.
use comm.Prelude.{ℕ, ◌+◌, ◌-◌, ◌<◌, ◌≤◌, ◌^◌, ◌≡◌, true, ◌==◌, add_usize, sub_usize, arith}

pub add_usize_one : (n : ℕ) → n + 1 < 2 ^ 64 → add_usize n 1 ≡ n + 1
add_usize_one n h = omega arith

pub sub_usize_one : (n : ℕ) → 0 < n → n < 2 ^ 64 → sub_usize n 1 ≡ n - 1
sub_usize_one n a b = omega arith

pub less_one : (n : ℕ) → n < 2 ^ 64 → n - 1 < 2 ^ 64
less_one n h = omega arith

pub only_one : (n : ℕ) → 0 < n → n ≤ 1 → n - 1 ≡ 0
only_one n a b = omega arith

pub last_end : (n : ℕ) → (n == 1) ≡ true → n - 1 ≡ 0
last_end n e = ground arith
