-- ===== src/Select/WaitQueue.antt =====
-- src/select/imp.rs, `WaitQueue`: the `Select` objects to be told when a target becomes ready.
-- `none` is a panic.
pub mod Told
pub mod Notify
use comm.Prelude.{
  ℕ, zero, suc, ◌+◌, Bool, true, false, Option, none, some, List, [], ◌∷◌, ◌++◌, ◌>>=◌, length,
  get_elem?, remove_at, swap_remove, ltb, ◌==◌, if◌then◌else◌, update,
}
use comm.Select.Inner.{Inner, add_ready, going_away}

-- The `Select` objects by address. `none` is one that has been dropped, so that `upgrade` fails.
abbrev pub Selects : Type 0
Selects = ℕ → Option Inner

-- `Weak<Mutex<Inner>>` is the address of the `Select` object.
pub record WaitQueue : Type 0 where
  pub queue : List ℕ
  pub id : ℕ

abbrev pub new : WaitQueue
new = record { queue = []; id = 0 }

abbrev pub set_id : WaitQueue → ℕ → WaitQueue
set_id q id = record q { id = id }

unfoldable pub add : WaitQueue → ℕ → WaitQueue × ℕ
add q load = (record q { queue = q.queue ++ (load ∷ []) }, length (q.queue ++ (load ∷ [])))

-- `iter().position(|el| el.unique_id() == id)`
abbrev pub position : List ℕ → ℕ → Option ℕ
position [] id = none
position (x ∷ xs) id =
    if x == id then some 0 else elim (position xs id) [ none ↦ none | some p ↦ some (suc p) ]

unfoldable pub remove : WaitQueue → ℕ → Option (WaitQueue × ℕ)
remove q id = elim (position q.queue id) [
  | none ↦ some (q, length q.queue)
  | some p ↦ remove_at q.queue p >>= λ rest. some (record q { queue = rest }, length rest)
]

-- The loop of `notify`. A dead `Select` object gives its place to the last of the queue.
unfoldable pub notify_loop : (fuel i id : ℕ) → List ℕ → Selects → Option (List ℕ × Selects)
notify_loop zero i id queue selects = none
notify_loop (suc fuel) i id queue selects = elim (ltb i (length queue)) [
  | false ↦ some (queue, selects)
  | true ↦ get_elem? queue i >>= λ sel. elim (selects sel) [
    | none ↦ notify_loop fuel i id (swap_remove queue i) selects
    | some inner ↦ add_ready inner id >>= λ (inner', told).
        notify_loop fuel (i + 1) id queue (update selects sel (some inner'))
  ]
]

-- Each round takes a `Select` object off what is left, so one round more than there are is enough.
unfoldable pub notify : WaitQueue → Selects → Option (WaitQueue × Selects × ℕ)
unfolding notify_loop
notify q selects = notify_loop (suc (length q.queue)) 0 q.id q.queue selects >>= λ (rest, selects').
    some (record q { queue = rest }, selects', length rest)

unfoldable pub clear_loop : ℕ → List ℕ → Selects → Option Selects
clear_loop id [] selects = some selects
clear_loop id (sel ∷ rest) selects = elim (selects sel) [
  | none ↦ clear_loop id rest selects
  | some inner ↦ going_away inner id >>= λ (inner', told).
      clear_loop id rest (update selects sel (some inner'))
]

-- Also what `drop` of a `WaitQueue` does.
unfoldable pub clear : WaitQueue → Selects → Option (WaitQueue × Selects)
unfolding clear_loop
clear q selects =
    clear_loop q.id q.queue selects >>= λ selects'. some (record q { queue = [] }, selects')
