-- ===== src/Mpmc/Bounded/Start.antt =====
-- The packet that `new` of src/mpmc/bounded/imp.rs makes.
use comm.Prelude.{
  ℕ, ◌-◌, ◌%◌, ◌^◌, ◌≤◌, ◌≡◌, refl, ◌∙◌, Bool, false, ◌||◌, none, some, [], ◌>>=◌, arith, ltb, ◌==◌,
  if◌then◌else◌, if_false, length-replicate,
}
use comm.Prelude.Powers.{saturating_size, next_power_of_two_lem}
use comm.Mpmc.Bounded.{fresh, new, decompose_pointer}
use comm.Mpmc.Bounded.Models.{Models}
use native.Mathlib.Nat.{pow-le-pow_right}

mask_fits : (c : ℕ) → c ≤ 2 ^ 31 → (c - 1) % 2 ^ 32 ≡ c - 1
mask_fits c h = omega arith

small_enough : (n : ℕ) → n ≤ 2 ^ 31 → ltb (2 ^ 31) n ≡ false
small_enough n h = ground arith

module _ {ℓ} {T : Type ℓ} where
  fresh-Models : (k : ℕ) → k ≤ 31 → Models {T = T} k (fresh (2 ^ k)) []
  unfolding decompose_pointer
  fresh-Models k fits = record {
    first = 0;
    fits = fits;
    mask = mask_fits (2 ^ k) (pow-le-pow_right {n = 2} (omega arith) fits);
    size = length-replicate (2 ^ k) none;
    range = omega arith;
    starts = refl;
    ends = refl;
    room = omega arith;
    holds = λ i x e. cc;
    hint = refl;
    address = (omega arith, refl);
  }

  -- For a size of at most `2 ^ 31` messages the capacity is the least power of two `2 ^ k` that is enough.
  -- `new` panics if the buffer takes more than `isize::MAX` bytes, and ends the program if there is no such
  -- memory; else it makes a packet that stands for the empty queue.
  pub mpmc_new_lem :
      (allocate : ℕ → Bool) (size_of buf_size : ℕ)
      → buf_size ≤ 2 ^ 31
      → (k : ℕ) × (buf_size ≤ 2 ^ k)
        × ((i : ℕ) → buf_size ≤ 2 ^ i → k ≤ i)
        × (new {T = T} allocate size_of buf_size ≡ (
            if ltb (2 ^ 63 - 1) (saturating_size (2 ^ k) size_of)
            then none
            else if size_of == 0 || allocate (saturating_size (2 ^ k) size_of)
            then some (fresh (2 ^ k))
            else none))
        × Models {T = T} k (fresh (2 ^ k)) []
  unfolding new
  mpmc_new_lem allocate size_of buf_size small =
      let (k, found, _, enough, least) = next_power_of_two_lem buf_size (omega arith) in
      (
        k,
        enough,
        least,
        if_false _ _ (small_enough buf_size small) ∙ rw (found, ◌>>=◌) refl,
        fresh-Models k (least 31 small),
      )
