-- ===== src/Spsc/Bounded/Sync.antt =====
-- src/spsc/bounded/imp.rs: sequences of calls, and the calls that block.
use comm.Prelude.{◌≡◌, true, false, Option, none, some, List, [], ◌∷◌, ◌>>=◌, Result, Error}
use comm.Channel.Calls.{
  Call, send, recv, drop_sender, drop_receiver, Reply, sent, received, dropped, try_again,
  is_empty_err,
}
use comm.Select.WaitQueue.{Selects}
use comm.Spsc.Bounded.{Packet, Sent, send_async, recv_async, disconnect_sender, disconnect_receiver}

module _ {ℓ} {T : Type ℓ} where
  -- One call of either end, with the guards that src/spsc/bounded/mod.rs puts round it.
  unfoldable pub step : Packet T → Selects → Call T → Option (Packet T × Selects × Reply T)
  unfolding send_async recv_async disconnect_sender disconnect_receiver
  step p selects (send val) =
      send_async p selects val false >>= λ (p', selects', out). some (p', selects', sent out)
  step p selects recv = recv_async p false >>= λ (p', out). some (p', selects, received out)
  step p selects drop_sender =
      disconnect_sender p selects >>= λ (p', selects'). some (p', selects', dropped)
  step p selects drop_receiver = disconnect_receiver p >>= λ p'. some (p', selects, dropped)

  unfoldable pub run :
      Packet T → Selects → List (Call T) → Option (Packet T × Selects × List (Reply T))
  unfolding step
  run p selects [] = some (p, selects, [])
  run p selects (call ∷ calls) = step p selects call >>= λ (p', selects', reply).
      run p' selects' calls >>= λ (p'', selects'', replies). some (p'', selects'', reply ∷ replies)

  -- The loop of `send_sync`, which holds the mutex but while it waits. `waits` are the calls of other
  -- threads during each wait; at its end the thread still sleeps, and the result is `none`.
  unfoldable pub send_sync_loop :
      List (List (Call T)) → Packet T → Selects → T → Option (Packet T × Selects × Option (Sent T))
  unfolding send_async run
  send_sync_loop [] p selects val = send_async p selects val true >>= λ (p', selects', out).
      elim (try_again out) [
        | none ↦
            some (record p' { have_sleeping = false; sleeping_mutex = false }, selects', some out)
        | some v ↦ some (record p' { sleeping_mutex = false }, selects', none)
      ]
  send_sync_loop (calls ∷ waits) p selects val =
      send_async p selects val true >>= λ (p', selects', out). elim (try_again out) [
        | none ↦
            some (record p' { have_sleeping = false; sleeping_mutex = false }, selects', some out)
        | some v ↦
            run (record p' { sleeping_mutex = false }) selects' calls
            >>= λ (p'', selects'', replies).
                send_sync_loop waits (record p'' { sleeping_mutex = true }) selects'' v
      ]

  -- `before` are the calls of other threads between the first try and the lock.
  unfoldable pub send_sync :
      Packet T
      → Selects
      → T
      → (before : List (Call T)) → List (List (Call T))
      → Option (Packet T × Selects × Option (Sent T))
  unfolding send_async run send_sync_loop
  send_sync p selects val before waits = send_async p selects val false >>= λ (p', selects', out).
      elim (try_again out) [
        | none ↦ some (p', selects', some out)
        | some v ↦ run p' selects' before >>= λ (p'', selects'', replies).
            send_sync_loop waits (record p'' { have_sleeping = true; sleeping_mutex = true })
              selects'' v
      ]

  unfoldable pub recv_sync_loop :
      List (List (Call T))
      → Packet T
      → Selects
      → Option (Packet T × Selects × Option (Result T Error))
  unfolding recv_async run
  recv_sync_loop [] p selects = recv_async p true >>= λ (p', out). elim (is_empty_err out) [
    | false ↦ some (record p' { have_sleeping = false; sleeping_mutex = false }, selects, some out)
    | true ↦ some (record p' { sleeping_mutex = false }, selects, none)
  ]
  recv_sync_loop (calls ∷ waits) p selects = recv_async p true >>= λ (p', out).
      elim (is_empty_err out) [
        | false ↦
            some (record p' { have_sleeping = false; sleeping_mutex = false }, selects, some out)
        | true ↦
            run (record p' { sleeping_mutex = false }) selects calls
            >>= λ (p'', selects'', replies).
                recv_sync_loop waits (record p'' { sleeping_mutex = true }) selects''
      ]

  unfoldable pub recv_sync :
      Packet T
      → Selects
      → (before : List (Call T)) → List (List (Call T))
      → Option (Packet T × Selects × Option (Result T Error))
  unfolding recv_async run recv_sync_loop
  recv_sync p selects before waits = recv_async p false >>= λ (p', out). elim (is_empty_err out) [
    | false ↦ some (p', selects, some out)
    | true ↦ run p' selects before >>= λ (p'', selects'', replies).
        recv_sync_loop waits (record p'' { have_sleeping = true; sleeping_mutex = true }) selects''
  ]

  -- Whichever way a try of the loops ends, with the rest of the call.
  pub send_sync_loop_done :
      (waits : List (List (Call T))) (p : Packet T) (selects : Selects) (val : T) {p' : Packet T}
      {selects' : Selects} {out : Sent T}
      → send_async p selects val true ≡ some (p', selects', out)
      → try_again out ≡ none
      → send_sync_loop waits p selects val
        ≡ some (record p' { have_sleeping = false; sleeping_mutex = false }, selects', some out)
  unfolding send_sync_loop
  send_sync_loop_done [] p selects val d e = rw (d, ◌>>=◌, e)
  send_sync_loop_done (calls ∷ waits) p selects val d e = rw (d, ◌>>=◌, e)

  pub send_sync_loop_stuck :
      (p : Packet T) (selects : Selects) (val : T) {p' : Packet T} {selects' : Selects}
      {out : Sent T} {v : T}
      → send_async p selects val true ≡ some (p', selects', out)
      → try_again out ≡ some v
      → send_sync_loop [] p selects val
        ≡ some (record p' { sleeping_mutex = false }, selects', none)
  unfolding send_sync_loop
  send_sync_loop_stuck p selects val d e = rw (d, ◌>>=◌, e)

  pub send_sync_loop_again :
      (calls : List (Call T)) (waits : List (List (Call T))) (p : Packet T) (selects : Selects)
      (val : T) {p' p'' : Packet T} {selects' selects'' : Selects} {out : Sent T} {v : T}
      {replies : List (Reply T)}
      → send_async p selects val true ≡ some (p', selects', out)
      → try_again out ≡ some v
      → run (record p' { sleeping_mutex = false }) selects' calls ≡ some (p'', selects'', replies)
      → send_sync_loop (calls ∷ waits) p selects val
        ≡ send_sync_loop waits (record p'' { sleeping_mutex = true }) selects'' v
  unfolding send_sync_loop
  send_sync_loop_again calls waits p selects val d e r = rw (d, ◌>>=◌, e, ◌>>=◌, r)

  pub recv_sync_loop_done :
      (waits : List (List (Call T))) (p : Packet T) (selects : Selects) {p' : Packet T}
      {out : Result T Error}
      → recv_async p true ≡ some (p', out)
      → is_empty_err out ≡ false
      → recv_sync_loop waits p selects
        ≡ some (record p' { have_sleeping = false; sleeping_mutex = false }, selects, some out)
  unfolding recv_sync_loop
  recv_sync_loop_done [] p selects d e = rw (d, ◌>>=◌, e)
  recv_sync_loop_done (calls ∷ waits) p selects d e = rw (d, ◌>>=◌, e)

  pub recv_sync_loop_stuck :
      (p : Packet T) (selects : Selects) {p' : Packet T} {out : Result T Error}
      → recv_async p true ≡ some (p', out)
      → is_empty_err out ≡ true
      → recv_sync_loop [] p selects ≡ some (record p' { sleeping_mutex = false }, selects, none)
  unfolding recv_sync_loop
  recv_sync_loop_stuck p selects d e = rw (d, ◌>>=◌, e)

  pub recv_sync_loop_again :
      (calls : List (Call T)) (waits : List (List (Call T))) (p : Packet T) (selects : Selects)
      {p' p'' : Packet T} {selects'' : Selects} {out : Result T Error} {replies : List (Reply T)}
      → recv_async p true ≡ some (p', out)
      → is_empty_err out ≡ true
      → run (record p' { sleeping_mutex = false }) selects calls ≡ some (p'', selects'', replies)
      → recv_sync_loop (calls ∷ waits) p selects
        ≡ recv_sync_loop waits (record p'' { sleeping_mutex = true }) selects''
  unfolding recv_sync_loop
  recv_sync_loop_again calls waits p selects d e r = rw (d, ◌>>=◌, e, ◌>>=◌, r)
