-- ===== src/Store/Paying.antt =====
-- The rule of Store/Steps for `replace_payments`, which writes the row once for each payment.
use mathlib.Core.List.{append-nil, append_assoc}
use mathlib.Core.Path.{subst}
use fx_deal_manager.Prelude.{
  ℕ, ◌+◌, ◌≡◌, refl, sym, ap, ◌∙◌, List, [], ◌∷◌, ◌++◌, ltb, inl, inr, Option-cases, Bool-cases,
}
use fx_deal_manager.Domain.{FxDeal, Payment}
use fx_deal_manager.Store.{
  Database, Environment, Session, Error, internal, payment_save_fault, Result, ok, err, Action,
  ◌>>=◌, flush, check_payment_save_fault, append_payments, replace_payments, put, at_rest,
}
use fx_deal_manager.Store.Rows.{put-put}
use fx_deal_manager.Store.Steps.{
  Ends, After, Tries, returns, raises, written, Ends-pure, Ends-part, Ends-Tries, Ends-write,
  flush-Tries,
}

module _ (env : Environment) where
  check-Tries : (index : ℕ) (s : Session) → Tries (check_payment_save_fault env index) s tt s
  unfolding check_payment_save_fault ◌>>=◌
  check-Tries index s = elim (Option-cases env.payment_save_fault_after) [
    | inl e ↦ returns (rw e)
    | inr (n, e) ↦ elim (Bool-cases (ltb n index)) [
      | inl over ↦ raises (internal (payment_save_fault n)) s (rw e (rw over)) refl
      | inr under ↦ returns (rw e (rw under))
    ]
  ]

  -- `base` with the row of `d` replaced by `d`.
  abbrev pub with_row : Database → FxDeal → Database
  with_row base d = record base { deals = put (at_rest env d) base.deals }

  rewrite_row :
      (base : Database) (d d' : FxDeal)
      → d'.id ≡ d.id
      → with_row (with_row base d) d' ≡ with_row base d'
  rewrite_row base d d' e =
      ap (λ rows. record base { deals = rows })
        (put-put (at_rest env d) (at_rest env d') base.deals e)

  module _ {B : Type 0} (Q : Result B → Session → Type 0) (db base : Database)
      (quiet : (x : Error) (u : Session) → u.stored ≡ db → Q (err x) u) where
    pub Ends-flush :
        (k : Unit {0} → Action B) (s : Session)
        → s.stored ≡ db
        → Ends Q (k tt s)
        → Ends Q ((flush env >>= k) s)
    Ends-flush k s = Ends-Tries Q db quiet (flush env) k (flush-Tries env s)

  module _ (Q : Result FxDeal → Session → Type 0) (db base : Database)
      (quiet : (x : Error) (u : Session) → u.stored ≡ db → Q (err x) u) where
    Ends-append :
        (d : FxDeal) (index : ℕ) (ps : List Payment) (s : Session)
        → s.stored ≡ db
        → s.current ≡ with_row base d
        → ((d' : FxDeal) (t : Session)
            → d' ≡ record d { payments = d.payments ++ ps }
            → t.stored ≡ db
            → t.current ≡ with_row base d'
            → t.effects ≡ s.effects
            → Q (ok d') t)
        → Ends Q (append_payments env d index ps s)
    unfolding append_payments
    Ends-append d index [] s kept now done =
        Ends-pure Q d s
          (done d s (λ i. record d { payments = sym (append-nil d.payments) i }) kept now refl)
    Ends-append d index (p ∷ ps) s kept now done =
        let paid = record d { payments = d.payments ++ (p ∷ []) } in
        Ends-Tries Q db quiet (check_payment_save_fault env index) _ (check-Tries index s) kept (
          Ends-write Q env paid _ s (
            Ends-append paid (index + 1) ps (written env paid s) kept
              (ap (λ c. with_row c paid) now ∙ rewrite_row base d paid refl)
              λ d' t e stored current effects.
                done d' t (e ∙ λ i. record d { payments = append_assoc d.payments (p ∷ []) ps i })
                  stored current effects))

  pub Ends-replace_payments :
      {B : Type 0} (Q : Result B → Session → Type 0) (db base : Database)
      → ((x : Error) (u : Session) → u.stored ≡ db → Q (err x) u)
      → (d : FxDeal) (rows : List Payment) (k : FxDeal → Action B) (s : Session) → s.stored ≡ db
      → with_row (s.current) (record d { payments = [] })
        ≡ with_row base (record d { payments = [] })
      → ((t : Session)
          → t.stored ≡ db
          → t.current ≡ with_row base (record d { payments = rows })
          → t.effects ≡ s.effects
          → Ends Q (k (record d { payments = rows }) t))
      → Ends Q ((replace_payments env d rows >>= k) s)
  unfolding replace_payments
  Ends-replace_payments Q db base quiet d rows k s kept now done =
      Ends-part Q (replace_payments env d rows) k s (
        Ends-write (After Q k) env _ _ s (
          Ends-part (After Q k) _ _ _ (
            Ends-append (After (After Q k) _) db base quiet _ 1 rows _ kept now
              λ d' t e stored current effects. Ends-flush (After Q k) db base quiet _ t stored (
                Ends-pure (After Q k) d' t (
                  subst (λ x. Ends Q (k x t)) (sym e)
                    (done t stored (current ∙ ap (λ x. with_row base x) e) effects))))))
