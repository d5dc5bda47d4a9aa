-- ===== src/Simulation/Blocking.antt =====
-- A call that blocks: it tries, takes the mutex, and tries again after each wait.
use comm.Prelude.{
  ◌≡◌, refl, Bool, true, false, Option, none, some, List, [], ◌∷◌, ◌>>=◌, Bool-cases, inl, inr,
}
use comm.Simulation.{run, spec_run, AllAllowed, run_lem}

-- `first` is a try without the mutex, `retry` one that holds it, and `again` says whether a try has to
-- be repeated. The four functions are what the call does to the sleeping thread: before the loop, at a
-- wait, when it wakes up, and after the loop.
module _ {ℓ κ μ ν} {P : Type ℓ} {Call : Type κ} {Reply : Type μ} {Out : Type ν}
    (step : P → Call → Option (P × Reply)) (first retry : P → Option (P × Out)) (again : Out → Bool)
    (enter sleep wake leave : P → P) where
  -- Each list holds the calls of other threads during one wait. At the end of the last the thread
  -- still sleeps, and the result is `none`.
  unfoldable pub block_loop : List (List Call) → P → Option (P × Option Out)
  unfolding run
  block_loop [] p = retry p >>= λ (p', out). elim (again out) [
    | false ↦ some (leave p', some out)
    | true ↦ some (sleep p', none)
  ]
  block_loop (calls ∷ waits) p = retry p >>= λ (p', out). elim (again out) [
    | false ↦ some (leave p', some out)
    | true ↦ run step (sleep p') calls >>= λ (p'', replies). block_loop waits (wake p'')
  ]

  -- `before` are the calls of other threads between the first try and the lock.
  unfoldable pub block : (before : List Call) → List (List Call) → P → Option (P × Option Out)
  unfolding run block_loop
  block before waits p = first p >>= λ (p', out). elim (again out) [
    | false ↦ some (p', some out)
    | true ↦ run step p' before >>= λ (p'', replies). block_loop waits (enter p'')
  ]

module _ {ℓ κ μ ν} {C : Type ℓ} {Call : Type κ} {Reply : Type μ} {Out : Type ν}
    (spec : C → Call → C × Reply) (try : C → C × Out) (again : Out → Bool) where
  -- The specification of such a call tries before each of the lists of calls, and at the end.
  unfoldable pub spec_block : List (List Call) → C → C × Option Out
  unfolding spec_run
  spec_block [] c = elim (again (try c).1) [
    | false ↦ ((try c).0, some (try c).1)
    | true ↦ ((try c).0, none)
  ]
  spec_block (calls ∷ waits) c = elim (again (try c).1) [
    | false ↦ ((try c).0, some (try c).1)
    | true ↦ spec_block waits (spec_run spec (try c).0 calls).0
  ]

  pub spec_block_done :
      (waits : List (List Call)) (c : C)
      → again (try c).1 ≡ false
      → spec_block waits c ≡ ((try c).0, some (try c).1)
  unfolding spec_block
  spec_block_done [] c e = rw (e, spec_block) refl
  spec_block_done (calls ∷ waits) c e = rw (e, spec_block) refl

  pub spec_block_stuck : (c : C) → again (try c).1 ≡ true → spec_block [] c ≡ ((try c).0, none)
  unfolding spec_block
  spec_block_stuck c e = rw (e, spec_block) refl

  pub spec_block_again :
      (calls : List Call) (waits : List (List Call)) (c : C)
      → again (try c).1 ≡ true
      → spec_block (calls ∷ waits) c ≡ spec_block waits (spec_run spec (try c).0 calls).0
  unfolding spec_block
  spec_block_again calls waits c e = rw (e, spec_block) refl

  -- The calls of other threads are allowed.
  abbrev pub AllWaits {ξ} : (C → Call → Type ξ) → C → List (List Call) → Type ξ
  AllWaits IsAllowed c [] = Unit
  AllWaits IsAllowed c (calls ∷ waits) =
      AllAllowed spec IsAllowed (try c).0 calls
      × AllWaits IsAllowed (spec_run spec (try c).0 calls).0 waits

-- `Free` relates the states while the mutex is free, and `Held` while the caller holds it.
module _ {ℓ κ μ ν λ₀ ξ ο} {P : Type ℓ} {C : Type λ₀} {Call : Type κ} {Reply : Type μ} {Out : Type ν}
    (step : P → Call → Option (P × Reply)) (first retry : P → Option (P × Out)) (again : Out → Bool)
    (enter sleep wake leave : P → P) (spec : C → Call → C × Reply) (try : C → C × Out)
    (IsAllowed : C → Call → Type ξ) (Free Held : P → C → Type ο)
    (steps : (p : P) (c : C) (call : Call)
      → Free p c
      → IsAllowed c call
      → (p' : P) × (step p call ≡ some (p', (spec c call).1)) × Free p' (spec c call).0)
    (firsts : (p : P) (c : C)
      → Free p c
      → (p' : P) × (first p ≡ some (p', (try c).1)) × Free p' (try c).0)
    (retries : (p : P) (c : C)
      → Held p c
      → (p' : P) × (retry p ≡ some (p', (try c).1)) × Held p' (try c).0)
    (enters : (p : P) (c : C) → Free p c → Held (enter p) c)
    (sleeps : (p : P) (c : C) → Held p c → Free (sleep p) c)
    (wakes : (p : P) (c : C) → Free p c → Held (wake p) c)
    (leaves : (p : P) (c : C) → Held p c → Free (leave p) c) where
  block_loop_lem :
      (waits : List (List Call)) (p : P) (c : C)
      → Held p c
      → AllWaits spec try again IsAllowed c waits
      → let (c', out) = spec_block spec try again waits c in
        (p' : P) × (block_loop step first retry again enter sleep wake leave waits p
          ≡ some (p', out))
        × Free p' c'
  unfolding block_loop
  block_loop_lem [] p c h all =
      let (p', done, h') = retries p c h in
      elim (Bool-cases (again (try c).1)) [
        | inl e ↦
            rw (spec_block_stuck spec try again c e)
              (sleep p', rw (done, ◌>>=◌, e) refl, sleeps p' (try c).0 h')
        | inr e ↦
            rw (spec_block_done spec try again [] c e)
              (leave p', rw (done, ◌>>=◌, e) refl, leaves p' (try c).0 h')
      ]
  block_loop_lem (calls ∷ waits) p c h all =
      let (p', done, h') = retries p c h in
      elim (Bool-cases (again (try c).1)) [
        | inl e ↦
            let (p'', ran, h'') =
              run_lem step spec IsAllowed Free steps calls (sleep p') (try c).0
                (sleeps p' (try c).0 h') all.0 in
            let (q, looped, hq) =
              block_loop_lem waits (wake p'') (spec_run spec (try c).0 calls).0
                (wakes p'' (spec_run spec (try c).0 calls).0 h'') all.1 in
            rw (spec_block_again spec try again calls waits c e)
              (q, rw (done, ◌>>=◌, e, ran, ◌>>=◌) looped, hq)
        | inr e ↦
            rw (spec_block_done spec try again (calls ∷ waits) c e)
              (leave p', rw (done, ◌>>=◌, e) refl, leaves p' (try c).0 h')
      ]

  -- If each step of it does what the specification does, so does the whole call.
  pub block_lem :
      (before : List Call) (waits : List (List Call)) (p : P) (c : C)
      → Free p c
      → AllWaits spec try again IsAllowed c (before ∷ waits)
      → let (c', out) = spec_block spec try again (before ∷ waits) c in
        (p' : P) × (block step first retry again enter sleep wake leave before waits p
          ≡ some (p', out))
        × Free p' c'
  unfolding block
  block_lem before waits p c f all =
      let (p', done, f') = firsts p c f in
      elim (Bool-cases (again (try c).1)) [
        | inl e ↦
            let (p'', ran, f'') =
              run_lem step spec IsAllowed Free steps before p' (try c).0 f' all.0 in
            let (q, looped, fq) =
              block_loop_lem waits (enter p'') (spec_run spec (try c).0 before).0
                (enters p'' (spec_run spec (try c).0 before).0 f'') all.1 in
            rw (spec_block_again spec try again before waits c e)
              (q, rw (done, ◌>>=◌, e, ran, ◌>>=◌) looped, fq)
        | inr e ↦
            rw (spec_block_done spec try again (before ∷ waits) c e)
              (p', rw (done, ◌>>=◌, e) refl, f')
      ]
