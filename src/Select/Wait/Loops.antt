-- ===== src/Select/Wait/Loops.antt =====
-- src/select/imp.rs: what the reports of other threads do to a `Select` object that sleeps.
use comm.Prelude.{
  ℕ, ◌≡◌, refl, ◌∙◌, ap, Bool, true, false, not, ◌&&◌, ◌||◌, some, List, [], ◌∷◌, ◌>>=◌, arith,
  length, ◌==◌, if◌then◌else◌, if_false, Bool-cases, inl, inr, occurs, contains_key, Map,
}
use comm.Select.Inner.{Entry, Inner, add_ready, going_away}
use comm.Select.Inner.Laws.{IsAddress, IsValid, Added, Added-IsValid, add_ready_lem, going_away_lem}
use comm.Select.Wait.{Report, goes_away, report, reports, wait_loop}
use comm.Select.Wait

abbrev pub IsReport : Report → Type 0
IsReport (Wait.is_ready id) = IsAddress id
IsReport (goes_away id) = IsAddress id

abbrev pub AllReports : List Report → Type 0
AllReports [] = Unit
AllReports (r ∷ rs) = IsReport r × AllReports rs

abbrev pub AllSleeps : List (List Report) → Type 0
AllSleeps [] = Unit
AllSleeps (rs ∷ sleeps) = AllReports rs × AllSleeps sleeps

abbrev pub has_ready : Inner → Bool
has_ready s = not (length s.ready_list == 0)

-- If the ready list is empty at the end, it has been, and the condvar has not been notified.
pub record Quiet (s s' : Inner) : Type 0 where
  pub still : has_ready s' ≡ false → s'.condvar ≡ s.condvar
  pub before : has_ready s' ≡ false → has_ready s ≡ false

Quiet-refl : (s : Inner) → Quiet s s
Quiet-refl s = record { still = λ e. refl; before = λ e. e }

Quiet-trans : {s s' s'' : Inner} → Quiet s s' → Quiet s' s'' → Quiet s s''
Quiet-trans a b = record {
  still = λ e. b.still e ∙ a.still (b.before e);
  before = λ e. a.before (b.before e);
}

emptied :
    (xs xs' : List ℕ) (id : ℕ) (added : Bool)
    → ((w : ℕ) → occurs w xs' ≡ (added && id == w) || occurs w xs)
    → not (length xs' == 0) ≡ false
    → (added ≡ false) × (not (length xs == 0) ≡ false)
emptied [] [] id added h e = ground (arith, h id)
emptied (x ∷ xs) [] id added h e = ground (arith, h x)
emptied xs (y ∷ ys) id added h e = ground arith

Added-Quiet : (s s' : Inner) (id : ℕ) (added : Bool) → Added s s' id added → Quiet s s'
Added-Quiet s s' id added a = record {
  still = λ e. ground (arith, a.notified, emptied s.ready_list s'.ready_list id added a.ids e);
  before = λ e. (emptied s.ready_list s'.ready_list id added a.ids e).1;
}

-- The target that a report is about.
abbrev pub id_of : Report → ℕ
id_of (Wait.is_ready id) = id
id_of (goes_away id) = id

abbrev pub mentions : ℕ → List Report → Bool
mentions w [] = false
mentions w (r ∷ rs) = id_of r == w || mentions w rs

-- Some report is about a target that is waited for.
abbrev pub any_heard : Map Entry → List Report → Bool
any_heard waiting [] = false
any_heard waiting (r ∷ rs) = contains_key (id_of r) waiting || any_heard waiting rs

-- The reports of the first sleep that brings one about a target that is waited for.
abbrev pub first_round : Map Entry → List (List Report) → List Report
first_round waiting [] = []
first_round waiting (rs ∷ sleeps) = if any_heard waiting rs then rs else first_round waiting sleeps

-- What one report does to the ids in the ready list and in the wait list.
record Reported (s s' : Inner) (id : ℕ) : Type 0 where
  ids :
      (w : ℕ)
      → occurs w s'.ready_list ≡ (contains_key id s.wait_list && id == w) || occurs w s.ready_list
  keys : (w : ℕ) → (id == w) ≡ false → contains_key w s'.wait_list ≡ contains_key w s.wait_list
  gone : (w : ℕ) → contains_key w s.wait_list ≡ false → contains_key w s'.wait_list ≡ false

report_lem :
    (s : Inner) (r : Report)
    → IsReport r
    → IsValid s
    → (s' : Inner) × (told : Bool) × (report s r ≡ some (s', told))
      × IsValid s'
      × Quiet s s'
      × Reported s s' (id_of r)
report_lem s (Wait.is_ready id) address v =
    let (s', done, waits, a) = add_ready_lem s id address v in
    (
      s',
      contains_key id s.wait_list,
      done,
      Added-IsValid v a,
      Added-Quiet s s' id _ a,
      record {
        ids = a.ids;
        keys = λ w e. ap (contains_key w) waits;
        gone = λ w e. ap (contains_key w) waits ∙ e;
      },
    )
report_lem s (goes_away id) address v =
    let (s', done, waits, a) = going_away_lem s id address v in
    (
      s',
      contains_key id s.wait_list,
      done,
      Added-IsValid v a,
      Added-Quiet s s' id _ a,
      record {
        ids = a.ids;
        keys = λ w e. ground (arith, waits w);
        gone = λ w e. ground (arith, waits w);
      },
    )

-- The ids after one report and then others.
both_reports :
    (id w : ℕ) (here here' named m occ occ' occ'' : Bool)
    → occ' ≡ (named && id == w) || occ
    → occ'' ≡ (here' && m) || occ'
    → ((id == w) ≡ false → here' ≡ here)
    → (here ≡ false → here' ≡ false)
    → ((id == w) ≡ true → named ≡ here)
    → occ'' ≡ (here && (id == w || m)) || occ
both_reports id w here here' named m occ occ' occ'' a b keys gone same =
    elim (Bool-cases (id == w)) [
      | inl e ↦ ground (arith, same e, e)
      | inr e ↦ ground (arith, keys e, e)
    ]

same_key :
    (id w : ℕ) (s : Inner)
    → (id == w) ≡ true
    → contains_key id s.wait_list ≡ contains_key w s.wait_list
same_key id w s e = let same : id ≡ w = ground arith in ap (λ k. contains_key k s.wait_list) same

-- The ready list after a sleep holds what it did, and the ids that are waited for and were reported.
reports_lem :
    (rs : List Report) (s : Inner)
    → AllReports rs
    → IsValid s
    → (s' : Inner) × (reports s rs ≡ some s')
      × IsValid s'
      × Quiet s s'
      × ((w : ℕ)
          → occurs w s'.ready_list
            ≡ (contains_key w s.wait_list && mentions w rs) || occurs w s.ready_list)
unfolding reports
reports_lem [] s all v = (s, refl, v, Quiet-refl s, λ w. ground arith)
reports_lem (r ∷ rs) s all v =
    let (s', told, done, v', q, one) = report_lem s r all.0 v in
    let (s'', done', v'', q', others) = reports_lem rs s' all.1 v' in
    (
      s'',
      rw (done, ◌>>=◌) done',
      v'',
      Quiet-trans q q',
      (λ w.
          both_reports (id_of r) w (contains_key w s.wait_list) (contains_key w s'.wait_list)
            (contains_key (id_of r) s.wait_list) (mentions w rs) (occurs w s.ready_list)
            (occurs w s'.ready_list) (occurs w s''.ready_list) (one.ids w) (others w) (one.keys w)
            (one.gone w) (same_key (id_of r) w s)),
    )

-- Reports about other targets change nothing.
silent_report :
    (s : Inner) (r : Report)
    → contains_key (id_of r) s.wait_list ≡ false
    → report s r ≡ some (s, false)
unfolding add_ready going_away
silent_report s (Wait.is_ready id) e = if_false _ _ e
silent_report s (goes_away id) e = if_false _ _ e

silent_reports :
    (rs : List Report) (s : Inner) → any_heard s.wait_list rs ≡ false → reports s rs ≡ some s
unfolding reports
silent_reports [] s e = refl
silent_reports (r ∷ rs) s e =
    let one : contains_key (id_of r) s.wait_list ≡ false = ground arith in
    rw (silent_report s r one, ◌>>=◌) (silent_reports rs s (ground arith))

heard :
    (rs : List Report) (s : Inner)
    → any_heard s.wait_list rs ≡ true
    → (w : ℕ) × (contains_key w s.wait_list ≡ true) × (mentions w rs ≡ true)
heard [] s e = cc
heard (r ∷ rs) s e = elim (Bool-cases (contains_key (id_of r) s.wait_list)) [
  | inl here ↦ (id_of r, here, ground arith)
  | inr other ↦ let (w, waited, mentioned) = heard rs s (ground arith) in (w, waited, ground arith)
]

some_ready : (w : ℕ) (s : Inner) → occurs w s.ready_list ≡ true → (length s.ready_list == 0) ≡ false
some_ready w s e = go s.ready_list e
  where
    go : (ids : List ℕ) → occurs w ids ≡ true → (length ids == 0) ≡ false
    go [] e = cc
    go (x ∷ xs) e = ground arith

-- The loop ends at once if something is ready.
loop_ends :
    (sleeps : List (List Report)) (s : Inner)
    → (length s.ready_list == 0) ≡ false
    → wait_loop s sleeps ≡ some (s, has_ready s)
unfolding wait_loop
loop_ends [] s e = refl
loop_ends (rs ∷ sleeps) s e = rw (e, wait_loop) refl

-- From a valid state and with reports about addresses, the loop does not panic, and it ends exactly
-- when there is something in the ready list; if it does not end, nothing has notified the condvar. If
-- nothing was ready, the ready list then holds the ids that are waited for and that the first sleep with
-- such a report has reported.
pub wait_loop_lem :
    (sleeps : List (List Report)) (s : Inner)
    → AllSleeps sleeps
    → IsValid s
    → (s' : Inner) × (wait_loop s sleeps ≡ some (s', has_ready s'))
      × IsValid s'
      × Quiet s s'
      × ((w : ℕ)
          → occurs w s'.ready_list
            ≡ (not (has_ready s)
                && (contains_key w s.wait_list && mentions w (first_round s.wait_list sleeps)))
              || occurs w s.ready_list)
unfolding wait_loop
wait_loop_lem [] s all v = (s, refl, v, Quiet-refl s, λ w. ground arith)
wait_loop_lem (rs ∷ sleeps) s all v = elim (Bool-cases (length s.ready_list == 0)) [
  | inr e ↦ (s, loop_ends (rs ∷ sleeps) s e, v, Quiet-refl s, λ w. ground arith)
  | inl e ↦ elim (Bool-cases (any_heard s.wait_list rs)) [
    | inr nothing ↦
        let (s', done, v', q, ids) = wait_loop_lem sleeps s all.1 v in
        (
          s',
          rw (e, wait_loop, silent_reports rs s nothing, ◌>>=◌) done,
          v',
          q,
          (λ w. rw nothing (ids w)),
        )
    | inl something ↦
        let (s', done, v', q, ids) = reports_lem rs s all.0 v in
        let (w, waited, mentioned) = heard rs s something in
        let here : (length s'.ready_list == 0) ≡ false =
          some_ready w s' (ids w ∙ rw (waited, mentioned) refl) in
        (
          s',
          rw (e, wait_loop, done, ◌>>=◌) (loop_ends sleeps s' here),
          v',
          q,
          (λ w. rw (something, e) (ids w)),
        )
  ]
]
