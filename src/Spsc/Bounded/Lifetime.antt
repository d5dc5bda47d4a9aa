-- ===== src/Spsc/Bounded/Lifetime.antt =====
-- src/spsc/bounded/imp.rs: the making of a channel and its end.
use comm.Prelude.{
  Bool, ◌||◌, ◌==◌, true, Bool-cases, inl, inr, ℕ, zero, suc, ◌+◌, ◌-◌, ◌*◌, ◌^◌, ◌≤◌, ◌≡◌, refl,
  subst, ◌∙◌, ap, false, Option, none, some, List, [], ◌∷◌, ◌>>=◌, arith, length, length-replicate,
  replicate, leb, if◌then◌else◌, add_usize, sub_usize,
}
use comm.Channel.{Chan}
use comm.Prelude.Powers.{checked_next_power_of_two, saturating_size, next_power_of_two_lem}
use comm.Ring
use comm.Ring.Laws.{Holds, read_lem}
use comm.Ring.Positions.{sub-positions}
use comm.Select.Watch
use comm.Spsc.Bounded.{Packet}
use comm.Spsc.Bounded.Models.{Models}

module _ {ℓ} {T : Type ℓ} where
  -- The packet that `new` makes of a buffer of empty places.
  abbrev fresh : ℕ → Packet T
  fresh cap = record {
    id = 0;
    buf = replicate cap none;
    cap_mask = cap - 1;
    read_pos = 0;
    write_pos = 0;
    have_sleeping = false;
    sleeping_mutex = false;
    sleeping_condvar = 0;
    sender_disconnected = false;
    receiver_disconnected = false;
    watch = Watch.new;
  }

  -- `size_of` is the size of a message, and `allocate` says whether there is memory of a size: if not, the
  -- pointer is null, and `oom` ends the program. Messages of no size need no memory.
  unfoldable pub new : (allocate : ℕ → Bool) → (size_of buf_size : ℕ) → Option (Packet T)
  unfolding checked_next_power_of_two
  new allocate size_of buf_size = checked_next_power_of_two buf_size >>= λ cap.
      if leb (2 ^ 63 - 1) (saturating_size cap size_of)
      then none
      else if size_of == 0 || allocate (saturating_size cap size_of)
      then some (fresh cap)
      else none

  -- The loop of `drop`, which reads every message that is left, with the rounds left and `i`.
  unfoldable pub drop_loop : (rounds i : ℕ) → Packet T → Option (Packet T × List T)
  drop_loop zero i p = some (p, [])
  drop_loop (suc n) i p = Ring.read p.buf p.cap_mask (add_usize p.read_pos i) >>= λ (val, buf).
      drop_loop n (i + 1) (record p { buf = buf }) >>= λ (p', vals). some (p', val ∷ vals)

  -- The messages that `drop` destroys.
  unfoldable pub drop : Packet T → Option (Packet T × List T)
  unfolding drop_loop
  drop p = drop_loop (sub_usize p.write_pos p.read_pos) 0 p

-- A size that has been saturated is refused as one that has not.
saturated {ℓ} :
    {A : Type ℓ} (size : ℕ) (fits : ℕ → Bool) (a : A)
    → (let size' = if leb (2 ^ 64) size then 2 ^ 64 - 1 else size in
        if leb (2 ^ 63 - 1) size' then none else if fits size' then some a else none)
      ≡ (if leb (2 ^ 63 - 1) size then none else if fits size then some a else none)
saturated size fits a = elim (Bool-cases (leb (2 ^ 64) size)) [
  | inl big ↦ let refused : leb (2 ^ 63 - 1) size ≡ true = ground arith in rw (big, refused) refl
  | inr fit ↦ rw fit refl
]

abbrev pub no_messages {ℓ} : {T : Type ℓ} → Chan T
no_messages = record { items = []; sender_gone = false; receiver_gone = false }

module _ {ℓ} {T : Type ℓ} where
  -- For a size of at most `2 ^ 63` messages there is a least power of two `2 ^ k` that is enough. If
  -- the buffer takes `isize::MAX` bytes or more, `new` panics. If messages have a size and the allocator
  -- has no memory for `2 ^ k` of them, the program ends. Else `new` makes a packet of capacity `2 ^ k`
  -- that stands for the empty queue, with nobody asleep and the mutex free.
  pub new_lem :
      (allocate : ℕ → Bool) (size_of buf_size : ℕ)
      → buf_size ≤ 2 ^ 63
      → (k : ℕ) × (p : Packet T) × (buf_size ≤ 2 ^ k)
        × ((i : ℕ) → buf_size ≤ 2 ^ i → k ≤ i)
        × (new allocate size_of buf_size ≡ (
            if leb (2 ^ 63 - 1) (2 ^ k * size_of)
            then none
            else if size_of == 0 || allocate (2 ^ k * size_of)
            then some p
            else none))
        × Models k p no_messages
        × (p.have_sleeping ≡ false)
        × (p.sleeping_mutex ≡ false)
  unfolding new
  new_lem allocate size_of buf_size small =
      let (k, found, le, bound, least) = next_power_of_two_lem buf_size small in
      (
        k,
        fresh (2 ^ k),
        bound,
        least,
        rw (found, ◌>>=◌) (saturated (2 ^ k * size_of) (λ size. size_of == 0 || allocate size) _),
        record {
          fits = le;
          mask = refl;
          size = length-replicate (2 ^ k) none;
          range = omega arith;
          write_at = refl;
          room = omega arith;
          holds = λ i x e. cc;
          sender = refl;
          receiver = refl;
          hint = refl;
          address = (omega arith, refl);
        },
        refl,
        refl,
      )

  drop_loop_lem :
      (k i : ℕ) (xs : List T) (p : Packet T)
      → k ≤ 63
      → p.cap_mask ≡ 2 ^ k - 1
      → length p.buf ≡ 2 ^ k
      → length xs ≤ 2 ^ k
      → Holds k p.buf (add_usize p.read_pos i) xs
      → (p' : Packet T) × (drop_loop (length xs) i p ≡ some (p', xs))
  unfolding drop_loop
  drop_loop_lem k i [] p fits mask size room h = (p, refl)
  drop_loop_lem k i (x ∷ xs) p fits mask size room h =
      let (buf, done, size', h') =
        read_lem k 64 (omega arith) p.buf (add_usize p.read_pos i) x xs size room h in
      let taken : Ring.read p.buf p.cap_mask (add_usize p.read_pos i) ≡ some (x, buf) =
        ap (λ mask. Ring.read p.buf mask (add_usize p.read_pos i)) mask ∙ done in
      let (p', done') =
        drop_loop_lem k (i + 1) xs (record p { buf = buf }) fits mask size' (omega arith)
          (subst (λ r. Holds k buf r xs) (omega arith) h') in
      (p', rw (taken, ◌>>=◌, done', ◌>>=◌) refl)

  -- Of a packet that stands for a queue, `drop` does not fault, and destroys the messages that are
  -- left, each once and in order.
  pub drop_lem :
      {k : ℕ} (p : Packet T) {c : Chan T}
      → Models k p c
      → (p' : Packet T) × (drop p ≡ some (p', c.items))
  unfolding drop
  drop_lem {k} p {c} m =
      let count : sub_usize p.write_pos p.read_pos ≡ length c.items =
        ap (λ w. sub_usize w p.read_pos) m.write_at
        ∙ sub-positions k p.read_pos (length c.items) m.fits m.range m.room in
      let (p', done) =
        drop_loop_lem k 0 c.items p m.fits m.mask m.size m.room
          (subst (λ r. Holds k p.buf r c.items) (omega (arith, m.range)) m.holds) in
      (p', ap (λ n. drop_loop n 0 p) count ∙ done)
