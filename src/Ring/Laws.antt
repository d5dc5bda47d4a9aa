-- ===== src/Ring/Laws.antt =====
-- What the buffer holds between two positions, as a list of messages.
use comm.Prelude.{
  ℕ, zero, suc, ◌+◌, ◌-◌, ◌%◌, ◌^◌, ◌≤◌, ◌<◌, ◌≡◌, ◌≢◌, ◌⊎◌, inl, inr, refl, sym, ◌∙◌, ap, Option,
  none, some, List, [], ◌∷◌, ◌++◌, arith, length, get_elem?, set, length-set, get_elem?-set_self,
  get_elem?-set_ne, lt_of_get_elem?, ltb, bit_and, bit_and-mask, pow-dvd, pow_pos, lt→ltb, true,
}
use native.Mathlib.Nat.{mod-mod_of_dvd, mod-add-mod, mod-lt, mod-eq_of_lt, mod-eq-sub-mod}
use native.Mathlib.Decide.{dec_lt}
use comm.Ring.{read, write}

-- Fewer than `c` steps round a ring of `c` places do not come back to the start.
mod-ne : (c a d : ℕ) → 0 < d → d < c → (a + d) % c ≢ a % c
mod-ne c a d pos small e = elim (dec_lt (a % c + d) c) [
  | yes p ↦ omega (arith, mod-add-mod a c d, mod-eq_of_lt p)
  | no p ↦ omega (
    arith,
    mod-add-mod a c d,
    mod-lt a {m = c} (omega arith),
    mod-eq-sub-mod {n = a % c + d} {m = c} (omega arith),
    mod-eq_of_lt {n = a % c + d - c} {m = c} (omega (arith, mod-lt a {m = c} (omega arith))),
  )
]

-- Distinct positions less than a capacity apart have distinct places.
pub place_ne : (c r i j : ℕ) → i < j → j < i + c → (r + j) % c ≢ (r + i) % c
place_ne c r i j lt close e =
    mod-ne c (r + i) (j - i) (omega arith) (omega arith) (ap (λ (t : ℕ). t % c) (omega arith) ∙ e)

-- A position that has wrapped round the machine word names the same place.
pub place : (k w r i : ℕ) → k ≤ w → (r % 2 ^ w + i) % 2 ^ k ≡ (r + i) % 2 ^ k
place k w r i fits =
    sym (mod-mod_of_dvd (2 ^ k) (r % 2 ^ w + i) (pow-dvd k w fits))
    ∙ ap (λ (t : ℕ). t % 2 ^ k) (mod-add-mod r (2 ^ w) i)
    ∙ mod-mod_of_dvd (2 ^ k) (r + i) (pow-dvd k w fits)

place_at : (k w p : ℕ) → k ≤ w → bit_and (p % 2 ^ w) (2 ^ k - 1) ≡ p % 2 ^ k
place_at k w p fits = bit_and-mask k (p % 2 ^ w) ∙ mod-mod_of_dvd (2 ^ k) p (pow-dvd k w fits)

module _ {ℓ} {T : Type ℓ} (k : ℕ) where
  -- From position `r` on the buffer of `2 ^ k` places holds the messages `xs`, in order.
  abbrev pub Holds : List (Option T) → ℕ → List T → Type ℓ
  Holds buf r xs =
      (i : ℕ) (x : T) → get_elem? xs i ≡ some x → get_elem? buf ((r + i) % 2 ^ k) ≡ some (some x)

  Holds-shift :
      (buf : List (Option T)) (r r' : ℕ) (xs : List T)
      → ((i : ℕ) → (r' + i) % 2 ^ k ≡ (r + i) % 2 ^ k)
      → Holds buf r xs
      → Holds buf r' xs
  Holds-shift buf r r' xs same h i x e = ap (get_elem? buf) (same i) ∙ h i x e

  -- A write to a place outside leaves what is held.
  Holds-set :
      (buf : List (Option T)) (r p : ℕ) (o : Option T) (xs : List T)
      → ((i : ℕ) → i < length xs → p ≢ (r + i) % 2 ^ k)
      → Holds buf r xs
      → Holds (set buf p o) r xs
  Holds-set buf r p o xs away h i x e =
      get_elem?-set_ne buf p ((r + i) % 2 ^ k) o (away i (lt_of_get_elem? xs i e)) ∙ h i x e

  pub get_elem?-append_left :
      (xs ys : List T) (i : ℕ) → i < length xs → get_elem? (xs ++ ys) i ≡ get_elem? xs i
  get_elem?-append_left [] ys i h = elim h [ ]
  get_elem?-append_left (x ∷ xs) ys zero h = refl
  get_elem?-append_left (x ∷ xs) ys (suc i) h = get_elem?-append_left xs ys i (omega arith)

  get_elem?-append_last :
      (xs : List T) (y : T) (i : ℕ) {z : T}
      → get_elem? (xs ++ (y ∷ [])) i ≡ some z
      → (i < length xs) ⊎ ((i ≡ length xs) × (y ≡ z))
  get_elem?-append_last [] y zero e = inr (refl, cc)
  get_elem?-append_last [] y (suc i) e = cc
  get_elem?-append_last (x ∷ xs) y zero e = inl (omega arith)
  get_elem?-append_last (x ∷ xs) y (suc i) e = elim (get_elem?-append_last xs y i e) [
    | inl h ↦ inl (omega arith)
    | inr (p, q) ↦ inr (omega arith, q)
  ]

  module _ (w : ℕ) (fits : k ≤ w) where
    pub read_lem :
        (buf : List (Option T)) (r : ℕ) (x : T) (xs : List T)
        → length buf ≡ 2 ^ k
        → length (x ∷ xs) ≤ 2 ^ k
        → Holds buf r (x ∷ xs)
        → (buf' : List (Option T)) × (read buf (2 ^ k - 1) r ≡ some (x, buf'))
          × (length buf' ≡ 2 ^ k)
          × Holds buf' ((r + 1) % 2 ^ w) xs
    unfolding read
    read_lem buf r x xs size room h = (
      set buf (r % 2 ^ k) none,
      rw (bit_and-mask k r, first) refl,
      length-set buf (r % 2 ^ k) none ∙ size,
      Holds-shift _ (r + 1) ((r + 1) % 2 ^ w) xs (λ i. place k w (r + 1) i fits)
          (Holds-set buf (r + 1) (r % 2 ^ k) none xs apart rest),
    )
      where
        first : get_elem? buf (r % 2 ^ k) ≡ some (some x)
        first = ap (λ (t : ℕ). get_elem? buf (t % 2 ^ k)) (omega arith) ∙ h 0 x refl

        rest : Holds buf (r + 1) xs
        rest i y e = ap (λ (t : ℕ). get_elem? buf (t % 2 ^ k)) (omega arith) ∙ h (suc i) y e

        apart : (i : ℕ) → i < length xs → r % 2 ^ k ≢ (r + 1 + i) % 2 ^ k
        apart i lt e =
            mod-ne (2 ^ k) r (1 + i) (omega arith) (omega arith)
              (ap (λ (t : ℕ). t % 2 ^ k) (omega arith) ∙ sym e)

    pub write_lem :
        (buf : List (Option T)) (r : ℕ) (xs : List T) (v : T)
        → length buf ≡ 2 ^ k
        → length xs < 2 ^ k
        → Holds buf r xs
        → (buf' : List (Option T)) × (write buf (2 ^ k - 1) ((r + length xs) % 2 ^ w) v ≡ some buf')
          × (length buf' ≡ 2 ^ k)
          × Holds buf' r (xs ++ (v ∷ []))
    unfolding write
    write_lem buf r xs v size room h = (
      set buf ((r + length xs) % 2 ^ k) (some v),
      rw (place_at k w (r + length xs) fits, inside) refl,
      length-set buf ((r + length xs) % 2 ^ k) (some v) ∙ size,
      both,
    )
      where
        at : ℕ
        at = (r + length xs) % 2 ^ k

        bound : at < length buf
        bound = omega (arith, mod-lt (r + length xs) (pow_pos k))

        inside : ltb at (length buf) ≡ true
        inside = lt→ltb _ _ bound

        apart : (i : ℕ) → i < length xs → at ≢ (r + i) % 2 ^ k
        apart i lt = place_ne (2 ^ k) r i (length xs) lt (omega arith)

        both : Holds (set buf at (some v)) r (xs ++ (v ∷ []))
        both i x e = elim (get_elem?-append_last xs v i e) [
          | inl lt ↦
              Holds-set buf r at (some v) xs apart h i x
                (sym (get_elem?-append_left xs (v ∷ []) i lt) ∙ e)
          | inr (p, q) ↦
              ap (λ (t : ℕ). get_elem? (set buf at (some v)) ((r + t) % 2 ^ k)) p
              ∙ get_elem?-set_self buf at (some v) bound
              ∙ ap (λ y. some (some y)) q
        ]
