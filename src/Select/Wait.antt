-- ===== src/Select/Wait.antt =====
-- src/select/imp.rs, the methods of `Select` itself.
-- Another thread reports to the `Select` object while it sleeps. `none` is a panic.
pub mod Laws
pub mod Loops
pub mod Found
pub mod Targets
use comm.Prelude.{
  ℕ, Bool, true, false, not, Option, none, some, List, [], ◌∷◌, ◌>>=◌, length, ◌==◌, if◌then◌else◌,
  update, insert_key, contains_key, remove_key, is_empty, min,
}
use comm.SortedVec
use comm.Select.Inner.{Entry, Inner, add_ready, going_away, copy_ids, check_ready_list}
use comm.Select.WaitQueue.{Selects}

-- The trait `_Selectable`, of a target in the state `S`. `register` and `unregister` take the address
-- of the `Select` object.
pub record Selectable (S : Type 0) : Type 0 where
  pub unique_id : ℕ
  pub ready : S → Bool
  pub register : S → ℕ → S
  pub unregister : S → ℕ → Option S

module _ {S : Type 0} (sel : Selectable S) where
  -- `me` is the address of the `Select` object.
  unfoldable pub add : S → Selects → (me : ℕ) → Option (S × Selects)
  add target selects me =
      let target' = sel.register target me in
      selects me >>= λ inner.
      (if sel.ready target'
        then SortedVec.insert inner.ready_list sel.unique_id
        else some inner.ready_list)
      >>= λ ready_list. some (
        target',
        update selects me (
            some (record inner {
              ready_list = ready_list;
              wait_list =
                  insert_key sel.unique_id (record { target = sel.unique_id }) inner.wait_list;
            })),
      )

  unfoldable pub remove : S → Selects → (me : ℕ) → Option (S × Selects × Bool)
  remove target selects me = selects me >>= λ inner.
      if contains_key sel.unique_id inner.wait_list
      then (SortedVec.remove inner.ready_list sel.unique_id >>= λ (ready_list, had).
          sel.unregister target me >>= λ target'. some (
            target',
            update selects me (
                some (record inner {
                  ready_list = ready_list;
                  wait_list = remove_key sel.unique_id inner.wait_list;
                })),
            true,
          ))
      else some (target, selects, false)

-- What a target reports through its wait queue.
pub data Report : Type 0 where
  is_ready : ℕ → Report
  goes_away : ℕ → Report

abbrev pub report : Inner → Report → Option (Inner × Bool)
report s (is_ready id) = add_ready s id
report s (goes_away id) = going_away s id

unfoldable pub reports : Inner → List Report → Option Inner
reports s [] = some s
reports s (r ∷ rs) = report s r >>= λ (s', told). reports s' rs

-- `while ready_list.len() == 0 { wait }`, and whether it has ended. Each list holds what is reported
-- during one sleep.
unfoldable pub wait_loop : Inner → List (List Report) → Option (Inner × Bool)
unfolding reports
wait_loop s [] = some (s, not (length s.ready_list == 0))
wait_loop s (rs ∷ sleeps) = elim (length s.ready_list == 0) [
  | false ↦ some (s, true)
  | true ↦ reports s rs >>= λ s'. wait_loop s' sleeps
]

-- What `upgrade` and then `ready` say of a target.
module _ (probe : Entry → Option Bool) where
  -- The buffer `ready` with the length of the prefix that is returned; `none` in its place is a call
  -- that still sleeps.
  unfoldable pub wait : Inner → List ℕ → List (List Report) → Option (Inner × List ℕ × Option ℕ)
  unfolding check_ready_list wait_loop copy_ids
  wait s ready sleeps =
      if is_empty s.wait_list
      then some (s, ready, some 0)
      else (check_ready_list probe s ready >>= λ (s', ready', found). elim found [
        | some n ↦ some (s', ready', some n)
        | none ↦ wait_loop s' sleeps >>= λ (s'', ended). elim ended [
          | false ↦ some (s'', ready', none)
          | true ↦
              let n = min (length ready') (length s''.ready_list) in
              copy_ids n 0 ready' s''.ready_list >>= λ ready''. some (s'', ready'', some n)
        ]
      ])

  -- `duration` holds what is reported before the time is up. `wait_timeout_with` sleeps until its
  -- test holds or the time is up, and `timed_out` says that the test did not come to hold. The last
  -- component is what the call returns.
  unfoldable pub wait_timeout :
      Inner → List ℕ → (duration : Option (List (List Report))) → Option (Inner × List ℕ × Option ℕ)
  unfolding check_ready_list wait_loop copy_ids
  wait_timeout s ready duration =
      if is_empty s.wait_list
      then some (s, ready, some 0)
      else (check_ready_list probe s ready >>= λ (s', ready', found). elim found [
        | some n ↦ some (s', ready', some n)
        | none ↦ elim duration [
          | none ↦ some (s', ready', some 0)
          | some sleeps ↦ wait_loop s' sleeps >>= λ (s'', ended).
              let timed_out = not ended in
              if not timed_out
              then some (s'', ready', none)
              else let n = min (length ready') (length s''.ready_list) in
                copy_ids n 0 ready' s''.ready_list >>= λ ready''. some (s'', ready'', some n)
        ]
      ])
