-- ===== src/Channel/Peers.antt =====
-- What a channel promises that any number of senders and receivers share.
use comm.Prelude.{
  false, ◌≡◌, ◌∙◌, ap, refl, not, arith, Bool-cases, inl, inr, ℕ, ◌+◌, ◌-◌, ◌<◌, ◌^◌, Bool, true,
  List, [], ◌∷◌, ◌++◌, length, ◌==◌, if◌then◌else◌, Result, ok, err, Error, disconnected, full,
  empty,
}
use comm.Channel.Calls.{is_empty_err}

-- The number of ends that are alive, with the messages on the way.
pub record Peers {ℓ} (T : Type ℓ) : Type ℓ where
  pub items : List T
  pub senders : ℕ
  pub receivers : ℕ

-- A call of one of the ends, with those that make an end or drop it.
pub data Call {ℓ} (T : Type ℓ) : Type ℓ where
  send : T → Call T
  recv : Call T
  clone_sender : Call T
  drop_sender : Call T
  clone_receiver : Call T
  drop_receiver : Call T

pub data Reply {ℓ} (T : Type ℓ) : Type ℓ where
  sent : Result (Unit {0}) (T × Error) → Reply T
  received : Result T Error → Reply T
  done : Reply T

module _ {ℓ} {T : Type ℓ} where
  -- An end that makes a call is alive, and fewer than `2 ^ 64` ends fit in the memory.
  abbrev pub IsAllowed : Peers T → Call T → Type 0
  IsAllowed c (send val) = 0 < c.senders
  IsAllowed c recv = 0 < c.receivers
  IsAllowed c clone_sender = (0 < c.senders) × (c.senders + 1 < 2 ^ 64)
  IsAllowed c drop_sender = 0 < c.senders
  IsAllowed c clone_receiver = (0 < c.receivers) × (c.receivers + 1 < 2 ^ 64)
  IsAllowed c drop_receiver = 0 < c.receivers

  abbrev pub push : Peers T → T → Peers T
  push c val = record c { items = c.items ++ (val ∷ []) }

  -- Whether a send has to be tried again.
  abbrev pub is_full_err : Result (Unit {0}) (T × Error) → Bool
  is_full_err (ok x) = false
  is_full_err (err (val, full)) = true
  is_full_err (err (val, e)) = false

  -- Whether there is room for one more message, and the reason if there is not.
  unfoldable pub put :
      (has_room : List T → Bool) → Peers T → T → Peers T × Result (Unit {0}) (T × Error)
  put has_room c val =
      if c.receivers == 0
      then (c, err (val, disconnected))
      else if has_room c.items
      then (push c val, ok tt)
      else (c, err (val, full))

  abbrev pub take_items : Peers T → List T → Peers T × Result T Error
  take_items c [] = (c, err (if c.senders == 0 then disconnected else empty))
  take_items c (x ∷ xs) = (record c { items = xs }, ok x)

  unfoldable pub get : Peers T → Peers T × Result T Error
  get c = take_items c c.items

  unfoldable pub step : (has_room : List T → Bool) → Peers T → Call T → Peers T × Reply T
  unfolding put get
  step has_room c (send val) = let (c', out) = put has_room c val in (c', sent out)
  step has_room c recv = let (c', out) = get c in (c', received out)
  step has_room c clone_sender = (record c { senders = c.senders + 1 }, done)
  step has_room c drop_sender = (record c { senders = c.senders - 1 }, done)
  step has_room c clone_receiver = (record c { receivers = c.receivers + 1 }, done)
  step has_room c drop_receiver = (record c { receivers = c.receivers - 1 }, done)

  pub get_empty :
      (c : Peers T)
      → c.items ≡ []
      → get c ≡ (record c { items = [] }, err (if c.senders == 0 then disconnected else empty))
  unfolding get
  get_empty c e =
      ap (take_items c) e
      ∙ ap (λ l. (record c { items = l }, err (if c.senders == 0 then disconnected else empty))) e

  pub get_first :
      (c : Peers T) (x : T) (xs : List T)
      → c.items ≡ x ∷ xs
      → get c ≡ (record c { items = xs }, ok x)
  unfolding get
  get_first c x xs e = ap (take_items c) e

  ready_items :
      (c : Peers T) (items : List T)
      → (if c.senders == 0 then true else not (length items == 0))
        ≡ not (is_empty_err (take_items c items).1)
  unfolding is_empty_err
  ready_items c [] = elim (Bool-cases (c.senders == 0)) [ inl e ↦ rw e refl | inr e ↦ rw e refl ]
  ready_items c (x ∷ xs) = elim (Bool-cases (c.senders == 0)) [
    | inl e ↦ rw e refl
    | inr e ↦ rw e (ground arith)
  ]

  -- A channel with a message, or with no sender, is one whose receive does not answer `empty`.
  pub ready_get :
      (c : Peers T)
      → (if c.senders == 0 then true else not (length c.items == 0)) ≡ not (is_empty_err (get c).1)
  unfolding get
  ready_get c = ready_items c c.items
