-- ===== src/Spsc/RingBuf/Room.antt =====
-- src/spsc/ring_buf/imp.rs: the receives, and the compare-and-swap that makes room for a message.
use comm.Prelude.{
  ℕ, zero, suc, ◌+◌, ◌-◌, ◌%◌, ◌^◌, ◌≤◌, ◌<◌, ◌≡◌, refl, sym, ◌∙◌, ap, subst, true, false, not,
  Option, none, some, List, [], ◌∷◌, ◌++◌, ◌>>=◌, arith, length, ◌==◌, ◌!=◌, if◌then◌else◌,
  Bool-cases, ◌⊎◌, inl, inr, add_usize, sub_usize, pow_pos, ◌||◌, ==_self, Result, Error,
}
use native.Mathlib.Nat.{pow-le-pow_right}
use comm.Channel
use comm.Channel.{Chan}
use comm.Ring
use comm.Ring.Laws.{Holds, read_lem}
use comm.Spsc.Bounded.{Packet}
use comm.Spsc.Bounded.Models.{Models, full_packet, empty_packet}
use comm.Spsc.RingBuf.{recv_async, recvs, make_room}

-- `n` receives of the queue.
unfoldable pub chan_recvs {ℓ} : {T : Type ℓ} → ℕ → Chan T → Chan T × List (Result T Error)
chan_recvs zero c = (c, [])
chan_recvs (suc n) c =
    let (c', out) = Channel.recv c in let (c'', outs) = chan_recvs n c' in (c'', out ∷ outs)

-- A queue of `cap` places that makes room by taking out its oldest message, which it gives back.
abbrev pub overwrite {ℓ} : {T : Type ℓ} → ℕ → Chan T → List T → T → Chan T × Option T
overwrite cap c [] val = (Channel.push c val, none)
overwrite cap c (x ∷ xs) val =
    if length (x ∷ xs) == cap
    then (record c { items = xs ++ (val ∷ []) }, some x)
    else (Channel.push c val, none)

module _ {ℓ} {T : Type ℓ} {k : ℕ} (p : Packet T) {c : Chan T} (m : Models k p c) where
  -- The oldest message comes out.
  taken :
      (x : T) (xs : List T)
      → c.items ≡ x ∷ xs
      → (buf : List (Option T)) × (Ring.read p.buf p.cap_mask p.read_pos ≡ some (x, buf))
        × Models k
            (record p { buf = buf; read_pos = add_usize p.read_pos 1 })
            (record c { items = xs })
  taken x xs e =
      let (buf, done, size, holds) =
        read_lem k 64 (omega (arith, m.fits)) p.buf p.read_pos x xs m.size
          (omega (arith, ap length e, m.room)) (subst (Holds k p.buf p.read_pos) e m.holds) in
      (
        buf,
        rw m.mask done,
        record {
          fits = m.fits;
          mask = m.mask;
          size = size;
          range = omega arith;
          write_at = omega (arith, m.write_at, ap length e);
          room = omega (arith, ap length e, m.room);
          holds = holds;
          sender = m.sender;
          receiver = m.receiver;
          hint = m.hint;
          address = m.address;
        },
      )

  -- What the receiver leaves alone, and how far it has come.
  abbrev pub Received : Packet T → Chan T → Type ℓ
  Received p' c' =
      Models k p' c'
      × (p'.write_pos ≡ p.write_pos)
      × (p'.have_sleeping ≡ p.have_sleeping)
      × (p'.sleeping_mutex ≡ p.sleeping_mutex)
      × (p'.read_pos ≡ (p.read_pos + (length c.items - length c'.items)) % 2 ^ 64)
      × (length c'.items ≤ length c.items)
      × (c'.receiver_gone ≡ c.receiver_gone)

  recv_items_lem :
      (items : List T)
      → c.items ≡ items
      → let (c', out) = Channel.recv_items c items in
        (p' : Packet T) × (recv_async p ≡ some (p', out)) × Received p' c'
  unfolding recv_async
  recv_items_lem [] e = (
    p,
    simp (empty_packet p m, e, m.sender),
    (m, refl, refl, refl, omega (arith, m.range), omega arith, refl),
  )
  recv_items_lem (x ∷ xs) e =
      let (buf, read, m') = taken x xs e in
      let some_left : (p.write_pos == p.read_pos) ≡ false =
        empty_packet p m ∙ rw e (ground arith) in
      (
        record p { buf = buf; read_pos = add_usize p.read_pos 1 },
        simp (some_left, read),
        (m', refl, refl, refl, omega (arith, ap length e), omega (arith, ap length e), refl),
      )

-- Of a packet that stands for a queue, `recv_async` does not fault: it answers as the receive of the
-- queue does, the packet then stands for the queue after that, and the sender's position stays.
pub recv_refines {ℓ} :
    {T : Type ℓ} {k : ℕ} (p : Packet T) {c : Chan T} (m : Models k p c)
    → let (c', out) = Channel.recv c in
      (p' : Packet T) × (recv_async p ≡ some (p', out))
      × Models k p' c'
      × (p'.write_pos ≡ p.write_pos)
unfolding Channel.recv
recv_refines p {c} m =
    let (p', done, (m', w, s, l, r, n, g)) = recv_items_lem p m c.items refl in (p', done, m', w)

pub recvs_lem {ℓ} :
    {T : Type ℓ} {k : ℕ} (n : ℕ) (p : Packet T) {c : Chan T} (m : Models k p c)
    → let (c', outs) = chan_recvs n c in
      (p' : Packet T) × (recvs n p ≡ some (p', outs)) × Received p m p' c'
unfolding recvs chan_recvs Channel.recv
recvs_lem zero p m = (p, refl, (m, refl, refl, refl, omega (arith, m.range), omega arith, refl))
recvs_lem (suc n) p {c} m =
    let (q, done, (mq, wq, sq, lq, rq, nq, gq)) = recv_items_lem p m c.items refl in
    let (r, done', (mr, wr, sr, lr, rr, nr, gr)) = recvs_lem n q mq in
    (
      r,
      rw (done, ◌>>=◌, done', ◌>>=◌) refl,
      (
        mr,
        wr ∙ wq,
        sr ∙ sq,
        lr ∙ lq,
        omega (arith, rr, rq, nr, nq),
        omega (arith, nr, nq),
        gr ∙ gq,
      ),
    )

nonempty {ℓ} :
    {T : Type ℓ} (items : List T) → 0 < length items → (x : T) × (xs : List T) × (items ≡ x ∷ xs)
nonempty [] h = absurd (omega arith)
nonempty (x ∷ xs) h = (x, xs, refl)

overwrite_room {ℓ} :
    {T : Type ℓ} (cap : ℕ) (c : Chan T) (items : List T) (val : T)
    → length items < cap
    → overwrite cap c items val ≡ (Channel.push c val, none)
overwrite_room cap c [] val h = refl
overwrite_room cap c (x ∷ xs) val h =
    let e : (length (x ∷ xs) == cap) ≡ false = ground arith in rw e refl

overwrite_full {ℓ} :
    {T : Type ℓ} (cap : ℕ) (c : Chan T) (x : T) (xs : List T) (val : T)
    → (length (x ∷ xs) == cap) ≡ true
    → overwrite cap c (x ∷ xs) val ≡ (record c { items = xs ++ (val ∷ []) }, some x)
overwrite_full cap c x xs val e = rw e refl

module _ {ℓ} {T : Type ℓ} (k : ℕ) (q : Packet T) {d : Chan T} (m : Models k q d)
    (write_pos : ℕ) where
  -- The buffer had room at the load, or the receiver has made some.
  room_there :
      (read_pos : ℕ)
      → (sub_usize write_pos read_pos != q.cap_mask + 1) || (q.read_pos != read_pos) ≡ true
      → make_room write_pos read_pos q ≡ some (q, none)
  unfolding make_room
  room_there read_pos h = ground (arith, h)

  room_made :
      (x : T) (xs : List T)
      → d.items ≡ x ∷ xs
      → (sub_usize write_pos q.read_pos != q.cap_mask + 1) ≡ false
      → (r : Packet T) × (make_room write_pos q.read_pos q ≡ some (r, some x))
        × Models k r (record d { items = xs })
        × (r.write_pos ≡ q.write_pos)
        × (r.have_sleeping ≡ q.have_sleeping)
        × (r.sleeping_mutex ≡ q.sleeping_mutex)
  unfolding make_room
  room_made x xs e h =
      let (buf, read, m') = taken q m x xs e in
      (
        record q { buf = buf; read_pos = add_usize q.read_pos 1 },
        simp (h, ==_self, read),
        m',
        refl,
        refl,
        refl,
      )

-- Room for one more message in what `q` stands for, `old` having been taken out if need be.
abbrev pub Made {ℓ} : {T : Type ℓ} → ℕ → (p q : Packet T) → Chan T → Type ℓ
Made {T = T} k p q d =
    (r : Packet T) × (old : Option T) × (e : Chan T) × (make_room p.write_pos p.read_pos q
      ≡ some (r, old))
    × Models k r e
    × (r.write_pos ≡ p.write_pos)
    × (r.have_sleeping ≡ q.have_sleeping)
    × (r.sleeping_mutex ≡ q.sleeping_mutex)
    × (length e.items < 2 ^ k)
    × ((val : T) → overwrite (2 ^ k) d d.items val ≡ (Channel.push e val, old))

module _ {ℓ} {T : Type ℓ} {k : ℕ} (p q : Packet T) {d : Chan T} (m : Models k q d)
    (w : q.write_pos ≡ p.write_pos) where
  Made-full :
      (x : T) (xs : List T)
      → d.items ≡ x ∷ xs
      → q.read_pos ≡ p.read_pos
      → (length (x ∷ xs) == 2 ^ k) ≡ true
      → (sub_usize p.write_pos q.read_pos != q.cap_mask + 1) ≡ false
      → Made k p q d
  Made-full x xs e same filled h =
      let (s, done, ms, ws, ss, ls) = room_made k q m p.write_pos x xs e h in
      (
        s,
        some x,
        record d { items = xs },
        ap (λ t. make_room p.write_pos t q) (sym same) ∙ done,
        ms,
        ws ∙ w,
        ss,
        ls,
        ground (arith, filled),
        λ val. ap (λ t. overwrite (2 ^ k) d t val) e ∙ overwrite_full (2 ^ k) d x xs val filled,
      )

  Made-already :
      length d.items < 2 ^ k
      → (sub_usize p.write_pos p.read_pos != q.cap_mask + 1) || (q.read_pos != p.read_pos) ≡ true
      → Made k p q d
  Made-already room h = (
    q,
    none,
    d,
    room_there k q m p.write_pos p.read_pos h,
    m,
    w,
    refl,
    refl,
    room,
    λ val. overwrite_room (2 ^ k) d d.items val room,
  )

module _ {ℓ} {T : Type ℓ} {k : ℕ} (p : Packet T) {c : Chan T} (m : Models k p c) where
  pow_bound : 2 ^ k ≤ 2 ^ 63
  pow_bound = pow-le-pow_right {n = 2} (omega arith) m.fits

  full_at :
      (q : Packet T)
      → q.cap_mask ≡ p.cap_mask
      → (sub_usize p.write_pos p.read_pos != q.cap_mask + 1) ≡ not (length c.items == 2 ^ k)
  full_at q e = ground (arith, full_packet p m)

  -- The receiver has not moved exactly if it has taken out nothing.
  still :
      (q : Packet T) (n : ℕ)
      → q.read_pos ≡ (p.read_pos + (length c.items - n)) % 2 ^ 64
      → n ≤ length c.items
      → (q.read_pos == p.read_pos) ≡ (n == length c.items)
  still q n r le = ground (arith, m.range, m.room, pow_bound)

  -- The compare-and-swap makes room exactly when the buffer is full by then.
  pub make_room_lem :
      (q : Packet T) {d : Chan T}
      → Models k q d
      → q.write_pos ≡ p.write_pos
      → q.read_pos ≡ (p.read_pos + (length c.items - length d.items)) % 2 ^ 64
      → length d.items ≤ length c.items
      → Made k p q d
  make_room_lem q {d} mq w r n =
      choose (Bool-cases (length c.items == 2 ^ k)) (Bool-cases (length d.items == length c.items))
    where
      at : (sub_usize p.write_pos p.read_pos != q.cap_mask + 1) ≡ not (length c.items == 2 ^ k)
      at = full_at q (mq.mask ∙ sym m.mask)

      moved : (q.read_pos == p.read_pos) ≡ (length d.items == length c.items)
      moved = still q (length d.items) r n

      choose :
          ((length c.items == 2 ^ k) ≡ true) ⊎ ((length c.items == 2 ^ k) ≡ false)
          → ((length d.items == length c.items) ≡ true)
            ⊎ ((length d.items == length c.items) ≡ false)
          → Made k p q d
      choose (inr room) b = Made-already p q mq w (ground (arith, m.room)) (ground (arith, at))
      choose (inl filled) (inr fewer) =
          Made-already p q mq w (ground (arith, m.room)) (ground (arith, moved))
      choose (inl filled) (inl all) =
          let same : q.read_pos ≡ p.read_pos = ground (arith, moved) in
          let (x, xs, e) = nonempty d.items (ground (arith, pow_pos k)) in
          Made-full p q mq w x xs e same (ap (λ t. length t == 2 ^ k) (sym e) ∙ ground arith)
            (ap (λ t. sub_usize p.write_pos t != q.cap_mask + 1) same ∙ at ∙ ap not filled)
