-- ===== src/Select/WaitQueue/Told.antt =====
-- src/select/imp.rs, `WaitQueue::notify`: who is told, and who stays in the queue, a round at a time.
use comm.Prelude.{
  ℕ, suc, ◌≤◌, ◌<◌, ◌≡◌, refl, sym, ◌∙◌, ap, Bool, true, false, ◌&&◌, ◌||◌, none, some, List, [],
  ◌∷◌, arith, length, get_elem?, drop, swap_remove, ◌==◌, if◌then◌else◌, Bool-cases, inl, inr,
  contains_key, update, count, occurs, count-swap_remove, occurs-swap_remove, occurs-drop, ==_iff,
  ==_of_ne, is_some, update_at, update_off,
}
use mathlib.Core.Path.{subst₂}
use comm.Select.Inner.{Inner}
use comm.Select.Inner.Laws.{IsValid, Added}
use comm.Select.WaitQueue.{Selects}

abbrev pub is_live : Selects → ℕ → Bool
is_live selects a = is_some (selects a)

abbrev pub AllValid : Selects → Type 0
AllValid selects = (a : ℕ) (s : Inner) → selects a ≡ some s → IsValid s

-- What a `Select` object has become: if `told`, the id is in its ready list and its condvar has been
-- notified, provided that it waits for the id.
pub record Told (id : ℕ) (told : Bool) (s s' : Inner) : Type 0 where
  pub waits : s'.wait_list ≡ s.wait_list
  pub ids :
      (w : ℕ)
      → occurs w s'.ready_list
        ≡ (told && contains_key id s.wait_list && id == w) || occurs w s.ready_list
  pub woken : told && contains_key id s.wait_list ≡ true → s.condvar < s'.condvar
  pub calls : s.condvar ≤ s'.condvar

-- The `Select` object at each address, before and after.
abbrev pub AllTold : ℕ → (ℕ → Bool) → Selects → Selects → Type 0
AllTold id told before after =
    (a : ℕ)
    → (is_live after a ≡ is_live before a)
      × ((s : Inner)
          → before a ≡ some s
          → (s' : Inner) × (after a ≡ some s') × Told id (told a) s s')

pub Told-same : (id : ℕ) (s : Inner) → Told id false s s
Told-same id s = record { waits = refl; ids = λ w. refl; woken = λ e. cc; calls = omega arith }

pub Told-Added :
    {id : ℕ} {s s' : Inner}
    → s'.wait_list ≡ s.wait_list
    → Added s s' id (contains_key id s.wait_list)
    → Told id true s s'
Told-Added e a = record {
  waits = e;
  ids = λ w. ground (arith, a.ids w);
  woken = λ t. ground (arith, a.notified);
  calls = ground (arith, a.notified);
}

Told-trans :
    {id : ℕ} {b : Bool} {s s' s'' : Inner}
    → Told id true s s'
    → Told id b s' s''
    → Told id true s s''
Told-trans {id} {b} {s} {s'} {s''} t u = record {
  waits = u.waits ∙ t.waits;
  ids = λ w. ground (arith, t.ids w, u.ids w, ap (contains_key id) t.waits);
  woken = λ e. omega (arith, t.woken e, u.calls);
  calls = omega (arith, t.calls, u.calls);
}

pub count-of_all :
    (p : ℕ → Bool) (a : ℕ) (xs : List ℕ)
    → ((j x : ℕ) → get_elem? xs j ≡ some x → p x ≡ true)
    → count a xs ≡ (if p a then count a xs else 0)
count-of_all p a [] h = ground arith
count-of_all p a (x ∷ xs) h = ground (arith, h 0 x refl, count-of_all p a xs (λ j. h (suc j)))

-- What the loop has done when it stops, started at index `i`.
pub record Notified (i id : ℕ) (queue : List ℕ) (selects : Selects) (out : List ℕ × Selects)
    : Type 0 where
  pub kept : (a : ℕ) → count a out.0 ≡ (if is_live selects a then count a queue else 0)
  pub told : AllTold id (λ a. occurs a (drop i queue)) selects out.1
  pub valid : AllValid out.1

pub Told-eq : {id : ℕ} {b c : Bool} {s t r : Inner} → b ≡ c → s ≡ t → Told id b s r → Told id c t r
Told-eq {id} {r = r} p q t = subst₂ (λ b s. Told id b s r) p q t

pub is_live-update :
    (selects : Selects) (x a : ℕ) {s : Inner} (s' : Inner)
    → selects x ≡ some s
    → is_live (update selects x (some s')) a ≡ is_live selects a
is_live-update selects x a s' e = elim (Bool-cases (x == a)) [
  | inl here ↦
      let p : x ≡ a = (==_iff x a).0 here in
      ap is_some (update_at selects x a (some s') here) ∙ sym (ap is_some (sym (ap selects p) ∙ e))
  | inr away ↦ ap is_some (update_off selects x a (some s') away)
]

-- A dead `Select` object is dropped from the queue.
pub Notified-dead :
    {i id x : ℕ} {queue : List ℕ} {selects : Selects} {out : List ℕ × Selects}
    → i < length queue
    → get_elem? queue i ≡ some x
    → selects x ≡ none
    → Notified i id (swap_remove queue i) selects out
    → Notified i id queue selects out
Notified-dead {i} {id} {x} {queue} {selects} {out} h e dead n = record {
  valid = n.valid;
  kept = λ a. ground (arith, n.kept a, count-swap_remove a queue i e);
  told = λ a. (
    (n.told a).0,
    λ s here.
        let (s', there, t) = (n.told a).1 s here in
        let other : (x == a) ≡ false = ==_of_ne x a (λ p. cc (ap selects p)) in
        (s', there, Told-eq (same a other) refl t),
  );
}
  where
    same :
        (a : ℕ)
        → (x == a) ≡ false
        → occurs a (drop i (swap_remove queue i)) ≡ occurs a (drop i queue)
    same a other = rw (occurs-swap_remove a queue i h, occurs-drop a queue i e, other)

-- A live one is told, and stays.
module _ {i id x : ℕ} {queue : List ℕ} (selects : Selects) {s s' : Inner} {out : List ℕ × Selects}
    (e : get_elem? queue i ≡ some x) (live : selects x ≡ some s) (t : Told id true s s')
    (n : Notified (suc i) id queue (update selects x (some s')) out) where
  Told-here :
      (a : ℕ) (r : Inner)
      → (x == a) ≡ true
      → selects a ≡ some r
      → (r' : Inner) × (out.1 a ≡ some r') × Told id (occurs a (drop i queue)) r r'
  Told-here a r here at =
      let p : x ≡ a = (==_iff x a).0 here in
      let (r', there, u) = (n.told a).1 s' (rw here) in
      let same : s ≡ r = cc (ap selects p) in
      (r', there, Told-eq (sym (occurs-drop a queue i e ∙ rw here)) same (Told-trans t u))

  Told-away :
      (a : ℕ) (r : Inner)
      → (x == a) ≡ false
      → selects a ≡ some r
      → (r' : Inner) × (out.1 a ≡ some r') × Told id (occurs a (drop i queue)) r r'
  Told-away a r away at =
      let (r', there, u) = (n.told a).1 r (rw away at) in
      (r', there, Told-eq (sym (occurs-drop a queue i e ∙ rw away)) refl u)

  pub Notified-live : Notified i id queue selects out
  Notified-live = record {
    valid = n.valid;
    kept = λ a. n.kept a ∙ rw (is_live-update selects x a s' live);
    told = λ a. (
      (n.told a).0 ∙ is_live-update selects x a s' live,
      λ r at. elim (Bool-cases (x == a)) [
        | inl here ↦ Told-here a r here at
        | inr away ↦ Told-away a r away at
      ],
    );
  }
