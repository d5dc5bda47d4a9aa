-- ===== src/Simulation/Drain.antt =====
-- `while recv_async().is_ok() { }`, with which the channels destroy the messages that are left.
use comm.Prelude.{
  ℕ, zero, suc, ◌<◌, ◌≡◌, refl, subst, Option, none, some, List, [], ◌∷◌, ◌>>=◌, arith, length,
  Result, ok, err, Error,
}
use comm.Channel.Peers.{Peers, get, get_empty, get_first}

module _ {ℓ κ} {P : Type ℓ} {T : Type κ} (recv : P → Option (P × Result T Error)) where
  -- The fuel is a bound on the number of rounds.
  unfoldable pub drain : (fuel : ℕ) → P → Option (P × List T)
  drain zero p = none
  drain (suc n) p = recv p >>= λ (p', out). elim out [
    | ok x ↦ drain n p' >>= λ (p'', xs). some (p'', x ∷ xs)
    | err e ↦ some (p', [])
  ]

module _ {ℓ κ ο} {P : Type ℓ} {T : Type κ} (recv : P → Option (P × Result T Error))
    (Models : P → Peers T → Type ο)
    (recvs : (p : P) (c : Peers T)
      → Models p c
      → (p' : P) × (recv p ≡ some (p', (get c).1)) × Models p' (get c).0) where
  -- The loop takes out every message, and ends.
  pub drain_lem :
      (items : List T) (fuel : ℕ) (p : P) (c : Peers T)
      → c.items ≡ items
      → Models p c
      → length items < fuel
      → (p' : P) × (drain recv fuel p ≡ some (p', items)) × Models p' (record c { items = [] })
  unfolding drain
  drain_lem items zero p c e m h = absurd (omega arith)
  drain_lem [] (suc n) p c e m h =
      let (p', done, m') =
        subst (λ g. (p' : P) × (recv p ≡ some (p', g.1)) × Models p' g.0) (get_empty c e)
          (recvs p c m) in
      (p', rw (done, ◌>>=◌) refl, m')
  drain_lem (x ∷ xs) (suc n) p c e m h =
      let (p', done, m') =
        subst (λ g. (p' : P) × (recv p ≡ some (p', g.1)) × Models p' g.0) (get_first c x xs e)
          (recvs p c m) in
      let (p'', drained, m'') = drain_lem xs n p' (record c { items = xs }) refl m' (omega arith) in
      (p'', rw (done, ◌>>=◌, drained, ◌>>=◌) refl, m'')
