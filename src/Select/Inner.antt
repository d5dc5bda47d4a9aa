-- ===== src/Select/Inner.antt =====
-- src/select/imp.rs, `Inner`: what a `Select` object keeps behind its mutex.
-- `none` is a panic of `SortedVec` or of an index.
pub mod Laws
pub mod Check
use comm.Prelude.{
  ℕ, zero, suc, ◌+◌, Bool, true, false, not, Option, none, some, List, [], ◌∷◌, ◌++◌, ◌>>=◌, length,
  get_elem?, set, ltb, ◌==◌, if◌then◌else◌, Map, lookup, contains_key, remove_key, min,
}
use comm.SortedVec

-- A weak reference to a target, by the address that is also the target's id.
pub record Entry : Type 0 where
  pub target : ℕ

-- `condvar` counts the calls of `notify_one`.
pub record Inner : Type 0 where
  pub wait_list : Map Entry
  pub ready_list : List ℕ
  pub ready_list2 : List ℕ
  pub condvar : ℕ

abbrev pub new : Inner
new = record { wait_list = []; ready_list = []; ready_list2 = []; condvar = 0 }

-- `ready_list.insert(id); condvar.notify_one()`
signal : Inner → ℕ → Option (Inner × Bool)
signal s id = SortedVec.insert s.ready_list id >>= λ l.
    some (record s { ready_list = l; condvar = s.condvar + 1 }, true)

unfoldable pub add_ready : Inner → ℕ → Option (Inner × Bool)
unfolding signal
add_ready s id = if contains_key id s.wait_list then signal s id else some (s, false)

unfoldable pub going_away : Inner → ℕ → Option (Inner × Bool)
unfolding signal
going_away s id =
    if contains_key id s.wait_list
    then signal (record s { wait_list = remove_key id s.wait_list }) id
    else some (s, false)

-- `for i in 0..n { ready[i] = ready_list[i]; }`, with the rounds left and `i`
unfoldable pub copy_ids : (rounds i : ℕ) → (ready ids : List ℕ) → Option (List ℕ)
copy_ids zero i ready ids = some ready
copy_ids (suc n) i ready ids =
    if ltb i (length ready)
    then (get_elem? ids i >>= λ id. copy_ids n (i + 1) (set ready i id) ids)
    else none

-- What `upgrade` and then `ready` say of a target: `none` once the target is gone.
module _ (probe : Entry → Option Bool) where
  -- `wait_list.get(&id)` and `upgrade().map(|e| e.ready()).unwrap_or(false)`
  abbrev pub is_ready : Map Entry → ℕ → Bool
  is_ready waiting id = elim (lookup id waiting) [
    | none ↦ false
    | some target ↦ elim (probe target) [ none ↦ false | some r ↦ r ]
  ]

  -- The loop over the drained ids.
  unfoldable pub keep_ready : Map Entry → (ids kept : List ℕ) → List ℕ
  keep_ready waiting [] kept = kept
  keep_ready waiting (id ∷ ids) kept =
      keep_ready waiting ids (if is_ready waiting id then kept ++ (id ∷ []) else kept)

  -- The new state, the buffer `ready`, and the number of ids written if there are any.
  unfoldable pub check_ready_list : Inner → List ℕ → Option (Inner × List ℕ × Option ℕ)
  unfolding keep_ready copy_ids
  check_ready_list s ready =
      let kept = keep_ready s.wait_list s.ready_list s.ready_list2 in
      let s' : Inner = record s { ready_list = kept; ready_list2 = [] } in
      let n = min (length ready) (length kept) in
      if n == 0
      then some (s', ready, none)
      else (copy_ids n 0 ready kept >>= λ ready'. some (s', ready', some n))
