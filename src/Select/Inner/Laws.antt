-- ===== src/Select/Inner/Laws.antt =====
-- src/select/imp.rs, `Inner`: the ready list is an ascending set of ids, and each method changes it
-- as a set.
use comm.Prelude.{
  ◌%◌, ◌*◌, ℕ, ◌+◌, ◌^◌, ◌<◌, ◌≡◌, refl, ◌∙◌, Bool, true, false, ◌&&◌, ◌||◌, some, List, [], ◌∷◌,
  arith, length, ◌==◌, ◌!=◌, if◌then◌else◌, Bool-cases, inl, inr, contains_key, contains_key-remove,
  remove_key, occurs,
}
use comm.SortedVec.Search.{IsSorted, Above}
use comm.SortedVec.Set.{insert_lem, with}
use comm.Select.Inner.{Inner, signal, add_ready, going_away}

-- An id is the address of an `arc::ArcInner`, which starts with an `AtomicUsize`.
abbrev pub IsAddress : ℕ → Type 0
IsAddress id = (id < 2 ^ 64) × (id % 8 ≡ 0)

abbrev pub AllAddress : List ℕ → Type 0
AllAddress [] = Unit
AllAddress (x ∷ xs) = IsAddress x × AllAddress xs

-- Between two calls the ready list is an ascending list of addresses, and the spare list is empty.
pub record IsValid (s : Inner) : Type 0 where
  pub sorted : IsSorted s.ready_list
  pub addresses : AllAddress s.ready_list
  pub spare : s.ready_list2 ≡ []

count-Above :
    (x : ℕ) (xs : List ℕ)
    → Above x xs
    → IsSorted xs
    → x < 2 ^ 64
    → x % 8 ≡ 0
    → AllAddress xs
    → x + 8 * length xs < 2 ^ 64
count-Above x [] a s lt m all = omega arith
count-Above x (y ∷ ys) a s lt m all = omega (arith, count-Above y ys s.0 s.1 all.0.0 all.0.1 all.1)

-- There are too few addresses for a ready list that no `Vec` can hold.
pub length-addresses : (xs : List ℕ) → IsSorted xs → AllAddress xs → length xs < 2 ^ 63
length-addresses [] s all = omega arith
length-addresses (x ∷ xs) s all = omega (arith, count-Above x xs s.0 s.1 all.0.0 all.0.1 all.1)

pub AllAddress-with :
    (id : ℕ) (xs : List ℕ) → IsAddress id → AllAddress xs → AllAddress (with id xs)
unfolding with
AllAddress-with id [] i all = (i, tt)
AllAddress-with id (x ∷ xs) i all = ground (arith, AllAddress-with id xs i all.1)

-- The state after `signal`.
abbrev signalled : Inner → ℕ → Inner
signalled s id = record s { ready_list = with id s.ready_list; condvar = s.condvar + 1 }

signal_lem :
    (s : Inner) (id : ℕ)
    → IsSorted s.ready_list
    → length s.ready_list < 2 ^ 63
    → signal s id ≡ some (signalled s id, true)
unfolding signal
signal_lem s id sorted small = rw (insert_lem s.ready_list id sorted small).0

-- What a call leaves of the ready list: as a set, `id` is put in if `added`.
pub record Added (s s' : Inner) (id : ℕ) (added : Bool) : Type 0 where
  pub sorted : IsSorted s'.ready_list
  pub spare : s'.ready_list2 ≡ s.ready_list2
  pub addresses : AllAddress s'.ready_list
  pub ids : (w : ℕ) → occurs w s'.ready_list ≡ (added && id == w) || occurs w s.ready_list
  pub notified : s'.condvar ≡ (if added then s.condvar + 1 else s.condvar)

signalled-Added : (s : Inner) (id : ℕ) → IsAddress id → IsValid s → Added s (signalled s id) id true
signalled-Added s id address v = record {
  sorted =
      (insert_lem s.ready_list id v.sorted (length-addresses s.ready_list v.sorted v.addresses)).1;
  spare = refl;
  addresses = AllAddress-with id s.ready_list address v.addresses;
  ids =
      (insert_lem s.ready_list id v.sorted (length-addresses s.ready_list v.sorted v.addresses)).2;
  notified = refl;
}

same-Added : (s : Inner) (id : ℕ) → IsValid s → Added s s id false
same-Added s id v = record {
  sorted = v.sorted;
  spare = refl;
  addresses = v.addresses;
  ids = λ w. refl;
  notified = refl;
}

-- On a valid state and an address, `add_ready` does not panic, puts the id of a target that is waited for into the ready list,
-- notifies the condvar, and returns whether it is waited for; else it changes nothing.
pub add_ready_lem :
    (s : Inner) (id : ℕ)
    → IsAddress id
    → IsValid s
    → (s' : Inner) × (add_ready s id ≡ some (s', contains_key id s.wait_list))
      × (s'.wait_list ≡ s.wait_list)
      × Added s s' id (contains_key id s.wait_list)
unfolding add_ready
add_ready_lem s id address v = elim (Bool-cases (contains_key id s.wait_list)) [
  | inl e ↦ rw e (
    signalled s id,
    signal_lem s id v.sorted (length-addresses s.ready_list v.sorted v.addresses),
    refl,
    signalled-Added s id address v,
  )
  | inr e ↦ rw e (s, refl, refl, same-Added s id v)
]

abbrev gone : Inner → ℕ → Inner
gone s id = record s { wait_list = remove_key id s.wait_list }

Added-gone : (s : Inner) {s' : Inner} (id : ℕ) → Added (gone s id) s' id true → Added s s' id true
Added-gone s id a = record {
  sorted = a.sorted;
  spare = a.spare;
  addresses = a.addresses;
  ids = a.ids;
  notified = a.notified;
}

-- On a valid state and an address, `going_away` does not panic, takes the target off the wait list,
-- and if it was there puts its id into the ready list and notifies the condvar.
pub going_away_lem :
    (s : Inner) (id : ℕ)
    → IsAddress id
    → IsValid s
    → (s' : Inner) × (going_away s id ≡ some (s', contains_key id s.wait_list))
      × ((w : ℕ) → contains_key w s'.wait_list ≡ (id != w) && contains_key w s.wait_list)
      × Added s s' id (contains_key id s.wait_list)
unfolding going_away
going_away_lem s id address v = elim (Bool-cases (contains_key id s.wait_list)) [
  | inl e ↦ rw e (
    signalled (gone s id) id,
    signal_lem (gone s id) id v.sorted (length-addresses s.ready_list v.sorted v.addresses),
    (λ w. contains_key-remove id w s.wait_list),
    Added-gone s id (
        signalled-Added (gone s id) id address
          (record { sorted = v.sorted; addresses = v.addresses; spare = v.spare })),
  )
  | inr e ↦ rw e (s, refl, (λ w. ground arith), same-Added s id v)
]

pub Added-IsValid :
    {s s' : Inner} {id : ℕ} {added : Bool} → IsValid s → Added s s' id added → IsValid s'
Added-IsValid v a = record { sorted = a.sorted; addresses = a.addresses; spare = a.spare ∙ v.spare }
