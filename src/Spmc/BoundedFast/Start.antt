-- ===== src/Spmc/BoundedFast/Start.antt =====
-- The packet that `new` of src/spmc/bounded_fast/imp.rs makes.
use comm.Prelude.{ℕ, ◌^◌, ◌≤◌, ◌≡◌, refl, ◌∙◌, ap, Option, none, some, [], ◌>>=◌, arith, false}
use comm.Channel.Peers.{Peers}
use comm.Prelude.Powers.{saturating_size}
use comm.Select.WaitQueue.{Selects}
use comm.Select.WaitQueue.Told.{AllValid}
use comm.Slots.{Slots}
use comm.Slots.IsQueue.{IsQueue}
use comm.Slots.Making.{new_lem}
use comm.Spmc.BoundedFast.{Packet, fresh, new}
use comm.Spmc.BoundedFast.Models.{Models}

abbrev pub no_messages {ℓ} : {T : Type ℓ} → Peers T
no_messages = record { items = []; senders = 1; receivers = 1 }

module _ {ℓ} {T : Type ℓ} (selects : Selects) (valid : AllValid selects) where
  fresh-Models :
      (k : ℕ) (slots : Slots T)
      → IsQueue k slots []
      → Models k false (fresh slots, selects) no_messages
  fresh-Models k slots q = record {
    queue = q;
    receivers = refl;
    sender = refl;
    few_receivers = omega arith;
    one_sender = omega arith;
    lock = refl;
    hint = refl;
    address = (omega arith, refl);
    valid = valid;
  }

  -- For a size of at most `2 ^ 62` messages the capacity is the least power of two `2 ^ k` that is enough
  -- and not below two. `new` asks once for that many nodes; if there is no such memory it makes no packet,
  -- else, whatever the memory holds, one that stands for the empty queue with one end on either side.
  pub spmc_fast_new_lem :
      (allocate : ℕ → Option (ℕ → ℕ)) (size_of buf_size : ℕ)
      → buf_size ≤ 2 ^ 62
      → (k : ℕ) × (made : (ℕ → ℕ) → Packet T) × (1 ≤ k)
        × (buf_size ≤ 2 ^ k)
        × ((i : ℕ) → 1 ≤ i → buf_size ≤ 2 ^ i → k ≤ i)
        × (new allocate size_of buf_size
            ≡ (allocate (saturating_size (2 ^ k) size_of) >>= λ words. some (made words)))
        × ((words : ℕ → ℕ) → Models k false (made words, selects) no_messages)
  unfolding new
  spmc_fast_new_lem allocate size_of buf_size small =
      let (k, made, two, enough, least, done, queue) = new_lem allocate size_of buf_size small in
      (
        k,
        (λ words. fresh (made words)),
        two,
        enough,
        least,
        ap (λ o. o >>= λ slots. some (fresh slots)) done
            ∙ bind_some (allocate (saturating_size (2 ^ k) size_of)) made,
        (λ words. fresh-Models k (made words) (queue words)),
      )
    where
      bind_some :
          (o : Option (ℕ → ℕ)) (f : (ℕ → ℕ) → Slots T)
          → ((o >>= λ words. some (f words)) >>= λ slots. some (fresh slots))
            ≡ (o >>= λ words. some (fresh (f words)))
      bind_some none f = refl
      bind_some (some words) f = refl
