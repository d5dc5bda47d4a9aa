-- ===== src/Select/Watch/Laws.antt =====
-- The hint `wait_queue_used` is right between calls, so no notification is lost to it.
use comm.Prelude.{
  ℕ, ◌+◌, ◌≤◌, ◌≡◌, refl, sym, true, false, not, ◌&&◌, none, some, List, [], ◌∷◌, arith, length,
  length-append, remove_at, ◌==◌, if◌then◌else◌, Bool-cases, Option-cases, inl, inr, count,
  count-append, occurs,
}
use comm.Select.Inner.Laws.{IsAddress}
use comm.Select.WaitQueue
use comm.Select.WaitQueue.{WaitQueue, Selects, position}
use comm.Select.WaitQueue.Told.{AllValid, AllTold, Told-same, Told-eq}
use comm.Select.WaitQueue.Notify.{notify_lem}
use comm.Select.Watch.{Watch, notify_wait_queue, register, unregister}

-- The hint says whether the queue holds anything.
abbrev pub IsConsistent : Watch → Type 0
IsConsistent w = w.used ≡ not (length w.queue.queue == 0)

-- `register` leaves the hint right, and enters the `Select` object once more.
pub register_lem :
    (w : Watch) (load : ℕ)
    → IsConsistent (register w load)
      × ((a : ℕ)
          → count a (register w load).queue.queue
            ≡ (if load == a then 1 else 0) + count a w.queue.queue)
unfolding register
register_lem w load = (
  ground (arith, length-append w.queue.queue (load ∷ [])),
  λ a. omega (arith, count-append a w.queue.queue (load ∷ [])),
)

-- The queue less the first `id`.
abbrev pub drop_first : ℕ → List ℕ → List ℕ
drop_first id [] = []
drop_first id (x ∷ xs) = if x == id then xs else x ∷ drop_first id xs

position-drop_first :
    (xs : List ℕ) (id : ℕ)
    → (elim (position xs id) [ none ↦ some xs | some p ↦ remove_at xs p ]) ≡ some (drop_first id xs)
position-drop_first [] id = refl
position-drop_first (x ∷ xs) id = ground (arith, position-drop_first xs id)

length-drop_first : (id : ℕ) (xs : List ℕ) → length (drop_first id xs) ≤ length xs
length-drop_first id [] = omega arith
length-drop_first id (x ∷ xs) = ground (arith, length-drop_first id xs)

remove-drop_first :
    (q : WaitQueue) (id : ℕ)
    → WaitQueue.remove q id
      ≡ some (record q { queue = drop_first id q.queue }, length (drop_first id q.queue))
unfolding WaitQueue.remove
remove-drop_first q id = elim (Option-cases (position q.queue id)) [
  | inl e ↦ ground (arith, position-drop_first q.queue id)
  | inr (p, e) ↦ ground (arith, position-drop_first q.queue id)
]

count-drop_first :
    (id a : ℕ) (xs : List ℕ)
    → count a (drop_first id xs) + (if occurs id xs && id == a then 1 else 0) ≡ count a xs
count-drop_first id a [] = refl
count-drop_first id a (x ∷ xs) = ground (arith, count-drop_first id a xs)

-- If the hint is right, `unregister` does not panic, keeps it right, and takes the `Select` object out
-- of the queue once, if it is there.
pub unregister_lem :
    (w : Watch) (id : ℕ)
    → IsConsistent w
    → (w' : Watch) × (unregister w id ≡ some w')
      × IsConsistent w'
      × ((a : ℕ)
          → count a w'.queue.queue + (if occurs id w.queue.queue && id == a then 1 else 0)
            ≡ count a w.queue.queue)
unfolding unregister
unregister_lem w id c =
    let rest = drop_first id w.queue.queue in
    (
      record {
        used = if length rest == 0 then false else w.used;
        queue = record w.queue { queue = rest };
      },
      rw (remove-drop_first w.queue id),
      ground (arith, length-drop_first id w.queue.queue),
      λ a. count-drop_first id a w.queue.queue,
    )

occurs-of_empty : (a : ℕ) (xs : List ℕ) → (length xs == 0) ≡ true → occurs a xs ≡ false
occurs-of_empty a [] h = refl
occurs-of_empty a (x ∷ xs) h = ground arith

-- If the hint is right, the id of the target an address and every `Select` object valid,
-- `notify_wait_queue` does not panic and tells every `Select` object of the queue, though it asks the
-- hint first; the hint stays right, and the `Select` objects valid.
pub notify_wait_queue_lem :
    (w : Watch) (selects : Selects)
    → IsConsistent w
    → IsAddress w.queue.id
    → AllValid selects
    → (w' : Watch) × (selects' : Selects) × (notify_wait_queue w selects ≡ some (w', selects'))
      × IsConsistent w'
      × (w'.queue.id ≡ w.queue.id)
      × AllTold w.queue.id (λ a. occurs a w.queue.queue) selects selects'
      × AllValid selects'
unfolding notify_wait_queue
notify_wait_queue_lem w selects c address valid = elim (Bool-cases w.used) [
  | inl yes_used ↦
      let (q, selects', done, same, kept, told, valid') =
        notify_lem w.queue selects address valid in
      (
        record { used = if length q.queue == 0 then false else w.used; queue = q },
        selects',
        rw (yes_used, done),
        ground arith,
        same,
        told,
        valid',
      )
  | inr unused ↦ (
    w,
    selects,
    rw unused,
    c,
    refl,
    λ a. (
      refl,
      λ s here.
          let none_here = occurs-of_empty a w.queue.queue (ground arith) in
          (s, here, Told-eq (sym none_here) refl (Told-same w.queue.id s)),
    ),
    valid,
  )
]
