-- ===== src/Select/Tests.antt =====
-- src/select/imp.rs on one `Select` object that waits for the target 8, and one that has been dropped.
use comm.Prelude.{
  ◌↔◌, min, ℕ, ◌≡◌, refl, Bool, true, false, not, ◌||◌, Option, none, some, List, [], ◌∷◌, ◌&&◌,
  arith, ◌==◌, ◌!=◌, if◌then◌else◌, length, occurs, count, contains_key, Bool-cases, inl, inr,
}
use comm.Select.Inner.{Entry, Inner, add_ready, going_away, check_ready_list}
use comm.Select.Inner.Laws.{IsAddress, IsValid, Added, add_ready_lem, going_away_lem}
use comm.Select.Inner.Check.{Copied, IsUp, check_ready_list_lem}
use comm.Select.WaitQueue.{WaitQueue, Selects, notify}
use comm.Select.WaitQueue.Told.{AllValid, AllTold, is_live}
use comm.Select.WaitQueue.Notify.{notify_lem}
use comm.Select.Watch.{Watch, register, notify_wait_queue}
use comm.Select.Wait
use comm.Select.Wait.{Selectable, Report, goes_away, wait, wait_timeout}
use comm.Select.Wait.Found.{IsFound, Waited}
use comm.Select.Wait.Laws.{wait_lem}
use comm.Select.Wait.Loops.{AllSleeps, first_round}
use comm.Select.Wait.Targets.{Only, add_lem, remove_target_lem}
use comm.Select.Watch.Laws.{IsConsistent, notify_wait_queue_lem}

abbrev waiting : Inner
waiting = record {
  wait_list = (8, record { target = 8 }) ∷ (24, record { target = 24 }) ∷ [];
  ready_list = 24 ∷ [];
  ready_list2 = [];
  condvar = 0;
}

IsAddress-8 : IsAddress 8
IsAddress-8 = (omega arith, refl)

waiting-IsValid : IsValid waiting
waiting-IsValid = record { sorted = (tt, tt); addresses = ((omega arith, refl), tt); spare = refl }

abbrev one_waits : Selects
one_waits a = if a == 64 then some waiting else none

abbrev queue : WaitQueue
queue = record { queue = 48 ∷ 64 ∷ []; id = 8 }

abbrev watch : Watch
watch = record { used = true; queue = queue }

one_waits-AllValid : AllValid one_waits
one_waits-AllValid a s e = elim (Bool-cases (a == 64)) [
  | inl here ↦ ground (arith, waiting-IsValid)
  | inr off ↦ ground arith
]

add_ready_lem_example :
    (s' : Inner) × (add_ready waiting 8 ≡ some (s', true))
    × (s'.wait_list ≡ waiting.wait_list)
    × Added waiting s' 8 true
add_ready_lem_example = add_ready_lem waiting 8 IsAddress-8 waiting-IsValid

going_away_lem_example :
    (s' : Inner) × (going_away waiting 8 ≡ some (s', true))
    × ((w : ℕ) → contains_key w s'.wait_list ≡ (8 != w) && contains_key w waiting.wait_list)
    × Added waiting s' 8 true
going_away_lem_example = going_away_lem waiting 8 IsAddress-8 waiting-IsValid

-- Both targets are there, and 24 is ready.
abbrev probe : Entry → Option Bool
probe e = some (e.target == 24)

check_ready_list_lem_example :
    (s' : Inner) × (ready' : List ℕ) × (check_ready_list probe waiting (0 ∷ 0 ∷ [])
      ≡ some (
        s',
        ready',
        if min 2 (length s'.ready_list) == 0 then none else some (min 2 (length s'.ready_list)),
      ))
    × IsValid s'
    × ((w : ℕ)
        → (occurs w s'.ready_list ≡ true) ↔ ((occurs w (24 ∷ []) ≡ true) × IsUp probe waiting w))
    × (s'.wait_list ≡ waiting.wait_list)
    × (s'.condvar ≡ waiting.condvar)
    × Copied (min 2 (length s'.ready_list)) 0 (0 ∷ 0 ∷ []) ready' s'.ready_list
check_ready_list_lem_example = check_ready_list_lem probe waiting (0 ∷ 0 ∷ []) waiting-IsValid

notify_lem_example :
    (q' : WaitQueue) × (selects' : Selects) × (notify queue one_waits
      ≡ some (q', selects', length q'.queue))
    × (q'.id ≡ 8)
    × ((a : ℕ) → count a q'.queue ≡ (if is_live one_waits a then count a queue.queue else 0))
    × AllTold 8 (λ a. occurs a queue.queue) one_waits selects'
    × AllValid selects'
notify_lem_example = notify_lem queue one_waits IsAddress-8 one_waits-AllValid

notify_wait_queue_lem_example :
    (w' : Watch) × (selects' : Selects) × (notify_wait_queue watch one_waits ≡ some (w', selects'))
    × IsConsistent w'
    × (w'.queue.id ≡ 8)
    × AllTold 8 (λ a. occurs a watch.queue.queue) one_waits selects'
    × AllValid selects'
notify_wait_queue_lem_example =
    notify_wait_queue_lem watch one_waits refl IsAddress-8 one_waits-AllValid

-- No target is ready at the call, and 8 becomes ready in the second sleep.
abbrev idle_probe : Entry → Option Bool
idle_probe e = some false

abbrev sleeps : List (List Report)
sleeps = (Wait.is_ready 16 ∷ []) ∷ (Wait.is_ready 8 ∷ goes_away 24 ∷ []) ∷ [] ∷ []

sleeps-AllSleeps : AllSleeps sleeps
sleeps-AllSleeps = (((omega arith, refl), tt), ((IsAddress-8, ((omega arith, refl), tt)), (tt, tt)))

wait_lem_example :
    (s' : Inner) × (ready' : List ℕ) × (out : Option ℕ) × (wait idle_probe waiting
        (0 ∷ 0 ∷ [])
        sleeps
      ≡ some (s', ready', out))
    × IsValid s'
    × ((w : ℕ) → (occurs w s'.ready_list ≡ true) ↔ IsFound idle_probe waiting sleeps w)
    × Waited waiting s' (0 ∷ 0 ∷ []) ready' out
wait_lem_example =
    wait_lem idle_probe waiting (0 ∷ 0 ∷ []) sleeps refl waiting-IsValid sleeps-AllSleeps

-- The second sleep reports both targets, which are waited for.
first_round_test : first_round waiting.wait_list sleeps ≡ Wait.is_ready 8 ∷ goes_away 24 ∷ []
first_round_test = refl

-- The time is up after the first sleep, which reports another target.
timeout_test :
    wait_timeout idle_probe waiting (0 ∷ 0 ∷ []) (some ((Wait.is_ready 16 ∷ []) ∷ []))
    ≡ some (record waiting { ready_list = [] }, 0 ∷ 0 ∷ [], some 0)
unfolding wait_timeout add_ready
timeout_test = refl

-- A target whose state is its watch, and which is ready.
abbrev target_40 : Selectable Watch
target_40 = record {
  unique_id = 40;
  ready = λ w. true;
  register = λ w load. register w load;
  unregister = λ w id. some w;
}

add_lem_example :
    (selects' : Selects) × (s' : Inner) × (Wait.add target_40 watch one_waits 64
      ≡ some (register watch 64, selects'))
    × (selects' 64 ≡ some s')
    × IsValid s'
    × ((w : ℕ) → contains_key w s'.wait_list ≡ (40 == w) || contains_key w waiting.wait_list)
    × ((w : ℕ) → occurs w s'.ready_list ≡ (40 == w) || occurs w waiting.ready_list)
    × Only target_40 64 one_waits selects'
add_lem_example =
    add_lem target_40 watch one_waits 64 waiting refl (omega arith, refl) waiting-IsValid

abbrev target_24 : Selectable Watch
target_24 = record target_40 { unique_id = 24 }

remove_target_lem_example :
    (selects' : Selects) × (s' : Inner) × (Wait.remove target_24 watch one_waits 64
      ≡ some (watch, selects', true))
    × (selects' 64 ≡ some s')
    × IsValid s'
    × ((w : ℕ) → contains_key w s'.wait_list ≡ (24 != w) && contains_key w waiting.wait_list)
    × ((w : ℕ) → occurs w s'.ready_list ≡ not (24 == w) && occurs w waiting.ready_list)
    × Only target_24 64 one_waits selects'
remove_target_lem_example =
    remove_target_lem target_24 watch watch one_waits 64 waiting refl refl waiting-IsValid
