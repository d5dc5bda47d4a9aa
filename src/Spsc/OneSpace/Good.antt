-- ===== src/Spsc/OneSpace/Good.antt =====
-- The channel keeps every message, and no `unwrap` fails: what holds of a system, step by step.
use comm.Prelude.{
  Bool, true, false, ◌||◌, Option, none, some, List, [], ◌∷◌, ◌++◌, ◌>>=◌, ◌≡◌, refl, sym, ◌∙◌, ap,
  subst, arith, is_some, append-nil, append_assoc, if_true,
}
use comm.Spsc.OneSpace.{Flags, Sender, System, take_thread, take_back}
use comm.Spsc.OneSpace.Phases.{Inv, is_nil}
use comm.Spsc.OneSpace.Sends

module _ {ℓ} {T : Type ℓ} where
  -- The message in the place, if there is one.
  abbrev pub held : Option T → List T
  held none = []
  held (some x) = x ∷ []

  -- Every message that was stored has been taken out, taken back or is still there, in that order.
  pub record Good (s : System T) : Type ℓ where
    pub phases : Inv s.packet s.sender s.receiver (is_nil s.returned)
    pub history : s.stored ≡ s.taken ++ (s.returned ++ held s.packet.val)

  abbrev pub Goes : Option (System T) → Type ℓ
  Goes out = (s : System T) × (out ≡ some s) × Good s

  none_held : (o : Option T) → is_some o ≡ false → held o ≡ []
  none_held none e = refl
  none_held (some x) e = cc

  pub some_held : (o : Option T) → is_some o ≡ true → (x : T) × (o ≡ some x)
  some_held none e = cc
  some_held (some x) e = (x, refl)

  pub store_history :
      (stored taken returned : List T) (o : Option T) (x : T)
      → is_some o ≡ false
      → stored ≡ taken ++ (returned ++ held o)
      → stored ++ (x ∷ []) ≡ taken ++ (returned ++ (x ∷ []))
  store_history stored taken returned o x e h =
      ap (λ l. l ++ (x ∷ [])) (h ∙ ap (λ l. taken ++ (returned ++ l)) (none_held o e))
      ∙ append_assoc taken (returned ++ []) (x ∷ [])
      ∙ ap (λ l. taken ++ (l ++ (x ∷ []))) (append-nil returned)

  is_nil-snoc : (xs : List T) (x : T) → false ≡ is_nil (xs ++ (x ∷ []))
  is_nil-snoc [] x = refl
  is_nil-snoc (y ∷ ys) x = refl

  module _ (s : System T) (g : Good s) where
    abbrev n : Bool
    n = is_nil s.returned

    pub take_thread_lem :
        (closing : Bool) (f : Flags)
        → Inv s.packet (Sender.looping closing f) s.receiver n
        → closing || f.data_available ≡ true
        → f.receiver_sleeping ≡ true
        → Goes (take_thread s closing f)
    unfolding take_thread
    take_thread_lem closing f m test sl =
        let there : s.packet.receiver_thread ≡ true = ground arith in
        (
          record s {
            packet = record s.packet { receiver_thread = false };
            sender = Sender.waking closing f;
          },
          if_true _ _ there,
          record {
            phases = Sends.thread_lem s.packet s.receiver n closing f m test sl;
            history = g.history;
          },
        )

    pub take_back_lem :
        (f : Flags)
        → Inv s.packet (Sender.looping false f) s.receiver n
        → f.data_available ≡ true
        → f.receiver_disconnected ≡ true
        → Goes (take_back s)
    unfolding take_back
    take_back_lem f m there gone =
        let (x, e) = some_held s.packet.val (ground arith) in
        (
          record s {
            packet = record s.packet { val = none };
            sender = Sender.clearing x;
            returned = s.returned ++ (x ∷ []);
          },
          rw (e, ◌>>=◌) refl,
          record {
            phases =
                subst (Inv (record s.packet { val = none }) (Sender.clearing x) s.receiver)
                  (is_nil-snoc s.returned x)
                  (Sends.back_lem s.packet s.receiver n f x m there gone);
            history =
                g.history
                ∙ ap (λ o. s.taken ++ (s.returned ++ held o)) e
                ∙ ap (λ l. s.taken ++ l) (sym (append-nil (s.returned ++ (x ∷ []))));
          },
        )
