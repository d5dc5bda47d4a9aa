-- ===== src/Select/WaitQueue/Notify.antt =====
-- src/select/imp.rs, `WaitQueue::notify`: the loop ends, and tells every `Select` object.
use comm.Prelude.{
  ℕ, zero, suc, ◌+◌, ◌≤◌, ◌<◌, ◌≡◌, refl, sym, ◌∙◌, ap, Bool, true, none, some, List, arith, length,
  get_elem?, get_elem?-total, swap_remove, ltb, ltb→lt, ◌==◌, if◌then◌else◌, Bool-cases,
  Option-cases, inl, inr, update, count, occurs, length-swap_remove, get_elem?-swap_remove,
  drop-length, is_some, lt_of_get_elem?, subst, update_at, update_off,
}
use native.Mathlib.Decide.{ℕ_discrete}
use comm.Select.Inner.{Inner, add_ready}
use comm.Select.Inner.Laws.{IsAddress, IsValid, Added, add_ready_lem, Added-IsValid}
use comm.Select.WaitQueue.{Selects, WaitQueue, notify_loop, notify}
use comm.Select.WaitQueue.Told.{
  is_live, is_live-update, AllValid, AllTold, Told-eq, Told-same, Told-Added, Notified,
  Notified-dead, Notified-live, count-of_all,
}

-- The `Select` objects before index `i` are live.
abbrev Passed : ℕ → List ℕ → Selects → Type 0
Passed i queue selects = (j a : ℕ) → j < i → get_elem? queue j ≡ some a → is_live selects a ≡ true

Notified-done :
    (i id : ℕ) (queue : List ℕ) (selects : Selects)
    → length queue ≤ i
    → AllValid selects
    → Passed i queue selects
    → Notified i id queue selects (queue, selects)
Notified-done i id queue selects end valid before = record {
  valid = valid;
  kept = λ a.
      count-of_all (is_live selects) a queue
        (λ j x e. before j x (omega (arith, lt_of_get_elem? queue j e)) e);
  told = λ a. (
    refl,
    λ s here.
        (s, here, Told-eq (sym (ap (occurs a) (drop-length queue i end))) refl (Told-same id s)),
  );
}

AllValid-update :
    {id x : ℕ} {selects : Selects} {s s' : Inner} {added : Bool}
    → AllValid selects
    → selects x ≡ some s
    → Added s s' id added
    → AllValid (update selects x (some s'))
AllValid-update {x = x} {selects} {s' = s'} valid live added a r e = elim (Bool-cases (x == a)) [
  | inl here ↦
      let same : s' ≡ r = cc (update_at selects x a (some s') here) in
      subst IsValid same (Added-IsValid (valid x _ live) added)
  | inr away ↦ valid a r (sym (update_off selects x a (some s') away) ∙ e)
]

Passed-live :
    (i x : ℕ) (queue : List ℕ) (selects : Selects) {s : Inner} (s' : Inner)
    → get_elem? queue i ≡ some x
    → selects x ≡ some s
    → Passed i queue selects
    → Passed (suc i) queue (update selects x (some s'))
Passed-live i x queue selects s' e live before j a lt here =
    is_live-update selects x a s' live ∙ elim (ℕ_discrete j i) [
      | yes p ↦
          let same : x ≡ a = cc (ap (get_elem? queue) p) in
          ap is_some (sym (ap selects same) ∙ live)
      | no ne ↦ before j a (omega arith) here
    ]

Passed-dead :
    (i : ℕ) (queue : List ℕ) (selects : Selects)
    → i < length queue
    → Passed i queue selects
    → Passed i (swap_remove queue i) selects
Passed-dead i queue selects bound before j a lt here =
    before j a lt (sym (get_elem?-swap_remove queue i j lt bound) ∙ here)

-- One round of the loop.
module _ (fuel i id : ℕ) (queue : List ℕ) (selects : Selects) {x : ℕ}
    (more : ltb i (length queue) ≡ true) (here : get_elem? queue i ≡ some x) where
  round_dead :
      selects x ≡ none
      → notify_loop (suc fuel) i id queue selects
        ≡ notify_loop fuel i id (swap_remove queue i) selects
  unfolding notify_loop
  round_dead dead = ground arith

  round_live :
      (s s' : Inner) (told : Bool)
      → selects x ≡ some s
      → add_ready s id ≡ some (s', told)
      → notify_loop (suc fuel) i id queue selects
        ≡ notify_loop fuel (suc i) id queue (update selects x (some s'))
  unfolding notify_loop
  round_live s s' told live done = ground arith

notify_loop_lem :
    (fuel i id : ℕ) (queue : List ℕ) (selects : Selects)
    → IsAddress id
    → i ≤ length queue
    → length queue < i + fuel
    → AllValid selects
    → Passed i queue selects
    → (out : List ℕ × Selects) × (notify_loop fuel i id queue selects ≡ some out)
      × Notified i id queue selects out
unfolding notify_loop
notify_loop_lem zero i id queue selects address within enough valid before = absurd (omega arith)
notify_loop_lem (suc fuel) i id queue selects address within enough valid before =
    elim (Bool-cases (ltb i (length queue))) [
      | inr end ↦ (
        (queue, selects),
        rw (end, notify_loop),
        Notified-done i id queue selects (ground arith) valid before,
      )
      | inl more ↦
          let (x, here) = get_elem?-total queue i (ground arith) in
          elim (Option-cases (selects x)) [
            | inl dead ↦
                let bound : i < length queue = ltb→lt i _ more in
                let (out, done, n) =
                  notify_loop_lem fuel i id (swap_remove queue i) selects address
                    (omega (arith, length-swap_remove queue i bound))
                    (omega (arith, length-swap_remove queue i bound)) valid
                    (Passed-dead i queue selects bound before) in
                (
                  out,
                  round_dead fuel i id queue selects more here dead ∙ done,
                  Notified-dead bound here dead n,
                )
            | inr (s, live) ↦
                let (s', added, waits, change) = add_ready_lem s id address (valid x s live) in
                let (out, done, n) =
                  notify_loop_lem fuel (suc i) id queue (update selects x (some s')) address
                    (ground arith) (omega arith) (AllValid-update valid live change)
                    (Passed-live i x queue selects s' here live before) in
                (
                  out,
                  round_live fuel i id queue selects more here s s' _ live added ∙ done,
                  Notified-live selects here live (Told-Added waits change) n,
                )
          ]
    ]

-- If the id of the target is an address and every `Select` object valid, `notify` ends within its fuel
-- without a panic, and leaves the `Select` objects valid. The `Select` objects that are live, and
-- no others, stay in the queue, as often as they were there, and their number is returned. Every
-- `Select` object in the queue that waits for the target gets its id into the ready list and a
-- notification of its condvar; all other ready lists hold the same ids as before, and no wait list
-- changes.
pub notify_lem :
    (q : WaitQueue) (selects : Selects)
    → IsAddress q.id
    → AllValid selects
    → (q' : WaitQueue) × (selects' : Selects) × (notify q selects
        ≡ some (q', selects', length q'.queue))
      × (q'.id ≡ q.id)
      × ((a : ℕ) → count a q'.queue ≡ (if is_live selects a then count a q.queue else 0))
      × AllTold q.id (λ a. occurs a q.queue) selects selects'
      × AllValid selects'
unfolding notify
notify_lem q selects address valid =
    let (out, done, n) =
      notify_loop_lem (suc (length q.queue)) 0 q.id q.queue selects address (omega arith)
        (omega arith) valid (λ j a lt e. elim lt [ ]) in
    (record q { queue = out.0 }, out.1, rw done, refl, n.kept, n.told, n.valid)
