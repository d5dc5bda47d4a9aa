-- ===== src/Select/Wait/Laws.antt =====
-- src/select/imp.rs, `wait` and `wait_timeout`: which ids they find, and that no report is slept through.
use comm.Prelude.{
  ℕ, ◌≡◌, ◌↔◌, refl, ◌∙◌, ap, Bool, true, false, Option, none, some, List, ◌>>=◌, arith, length,
  ◌==◌, Bool-cases, inl, inr, is_empty, min, occurs,
}
use comm.Select.Inner.{Entry, Inner}
use comm.Select.Inner.Laws.{IsValid}
use comm.Select.Inner.Check.{copy_ids_lem, check_ready_list_lem}
use comm.Select.Wait.{Report, wait}
use comm.Select.Wait.Loops.{AllSleeps, has_ready, wait_loop_lem}
use comm.Select.Wait.Found.{Back-of_Copied, Copied-after, IsFound, Waited, IsFound-ids}

module _ (probe : Entry → Option Bool) (s : Inner) (ready : List ℕ) where
  -- On a valid state that waits for something, and with reports about addresses, `wait` does not
  -- panic, and the ready list then holds exactly the ids that the call finds: those that are listed
  -- and whose target is waited for and ready at the call; or, if there is none, those of targets that
  -- are waited for and that were reported during the first sleep with such a report. If it comes back,
  -- there are such ids, and as many of them as fit have been written to the front of the buffer. If it
  -- still sleeps, there is none, and nothing has notified the condvar: no report is slept through.
  pub wait_lem :
      (sleeps : List (List Report))
      → is_empty s.wait_list ≡ false
      → IsValid s
      → AllSleeps sleeps
      → (s' : Inner) × (ready' : List ℕ) × (out : Option ℕ) × (wait probe s ready sleeps
          ≡ some (s', ready', out))
        × IsValid s'
        × ((w : ℕ) → (occurs w s'.ready_list ≡ true) ↔ IsFound probe s sleeps w)
        × Waited s s' ready ready' out
  unfolding wait
  wait_lem sleeps some_wait v all =
      let (s', ready', done, v', kept, waits, calls, copied) =
        check_ready_list_lem probe s ready v in
      let n = min (length ready) (length s'.ready_list) in
      elim (Bool-cases (n == 0)) [
        | inr found ↦ (
          s',
          ready',
          some n,
          rw (some_wait, done, ◌>>=◌, found) refl,
          v',
          IsFound-ids probe s s' s' sleeps kept waits (λ w. ground arith),
          record {
            back = λ m e. Back-of_Copied n m s' ready ready' e (ground arith) copied refl;
            asleep = λ e. cc;
          },
        )
        | inl nothing ↦
            let (s'', looped, v'', q, ids) = wait_loop_lem sleeps s' all v' in
            let final = IsFound-ids probe s s' s'' sleeps kept waits ids in
            elim (Bool-cases (has_ready s'')) [
              | inr idle ↦ (
                s'',
                ready',
                none,
                rw (some_wait, done, ◌>>=◌, nothing, looped, ◌>>=◌, idle) refl,
                v'',
                final,
                record { back = λ m e. cc; asleep = λ e. (idle, q.still idle ∙ calls) },
              )
              | inl here ↦
                  let m = min (length ready') (length s''.ready_list) in
                  let (ready'', filled, copied') =
                    copy_ids_lem m 0 ready' s''.ready_list (omega arith) (omega arith) in
                  (
                    s'',
                    ready'',
                    some m,
                    rw (some_wait, done, ◌>>=◌, nothing, looped, ◌>>=◌, here, filled) refl,
                    v'',
                    final,
                    record {
                      back = λ l e.
                          Back-of_Copied m l s'' ready ready'' e here
                            (Copied-after n m ready ready' ready'' s'.ready_list s''.ready_list
                              nothing copied copied')
                            (ap (λ t. min t (length s''.ready_list)) copied.0);
                      asleep = λ e. cc;
                    },
                  )
            ]
      ]
