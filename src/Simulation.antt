-- ===== src/Simulation.antt =====
-- Sequences of calls and calls that block, for any channel, and what they keep.
pub mod Blocking
pub mod Drain
use comm.Prelude.{◌≡◌, refl, Option, none, some, List, [], ◌∷◌, ◌>>=◌}

module _ {ℓ κ μ} {P : Type ℓ} {Call : Type κ} {Reply : Type μ}
    (step : P → Call → Option (P × Reply)) where
  -- The calls, one after the other, with their replies.
  unfoldable pub run : P → List Call → Option (P × List Reply)
  run p [] = some (p, [])
  run p (call ∷ calls) =
      step p call >>= λ (p', reply). run p' calls >>= λ (p'', replies). some (p'', reply ∷ replies)

module _ {ℓ κ μ} {C : Type ℓ} {Call : Type κ} {Reply : Type μ} (step : C → Call → C × Reply) where
  unfoldable pub spec_run : C → List Call → C × List Reply
  spec_run c [] = (c, [])
  spec_run c (call ∷ calls) =
      let (c', reply) = step c call in
      let (c'', replies) = spec_run c' calls in (c'', reply ∷ replies)

  -- Each call is allowed when its turn comes.
  abbrev pub AllAllowed {ν} : (C → Call → Type ν) → C → List Call → Type ν
  AllAllowed IsAllowed c [] = Unit
  AllAllowed IsAllowed c (call ∷ calls) =
      IsAllowed c call × AllAllowed IsAllowed (step c call).0 calls

module _ {ℓ κ μ λ₀ ν ξ} {P : Type ℓ} {C : Type λ₀} {Call : Type κ} {Reply : Type μ}
    (step : P → Call → Option (P × Reply)) (spec : C → Call → C × Reply)
    (IsAllowed : C → Call → Type ν) (Models : P → C → Type ξ)
    (steps : (p : P) (c : C) (call : Call)
      → Models p c
      → IsAllowed c call
      → (p' : P) × (step p call ≡ some (p', (spec c call).1)) × Models p' (spec c call).0) where
  -- If every call does what the specification does, so does every sequence of them.
  pub run_lem :
      (calls : List Call) (p : P) (c : C)
      → Models p c
      → AllAllowed spec IsAllowed c calls
      → (p' : P) × (run step p calls ≡ some (p', (spec_run spec c calls).1))
        × Models p' (spec_run spec c calls).0
  unfolding run spec_run
  run_lem [] p c m all = (p, refl, m)
  run_lem (call ∷ calls) p c m all =
      let (p', done, m') = steps p c call m all.0 in
      let (p'', ran, m'') = run_lem calls p' (spec c call).0 m' all.1 in
      (p'', rw (done, ◌>>=◌, ran, ◌>>=◌) refl, m'')
