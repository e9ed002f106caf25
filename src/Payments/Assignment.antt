-- ===== src/Payments/Assignment.antt =====
-- The accounts that `NostroAssignmentService.assign` finds.
use fx_deal_manager.Prelude.{
  ◌+◌, String, ◌≡◌, refl, sym, ◌∙◌, ap, ◌≢◌, none, some, List, [], ◌∷◌, map, arith, length, All,
  Dict, get, Option-cases, inl, inr,
}
use fx_deal_manager.Domain.{NostroAccount}
use fx_deal_manager.Issues.{no_nostro_account, ValidationIssue, issue}
use fx_deal_manager.Payments.{CalculatedPayment, assign}

-- The account of the payment's currency has the number.
abbrev pub IsAccountOf : Dict NostroAccount → CalculatedPayment × String → Type 0
IsAccountOf nostro (payment, number) =
    (account : NostroAccount) × (get payment.currency_code nostro ≡ some account)
    × (account.account_number ≡ number)

some_error : (x : ValidationIssue) (xs : List ValidationIssue) → x ∷ xs ≢ []
some_error x xs e = cc

module _ (nostro : Dict NostroAccount) (p : CalculatedPayment)
    (payments : List CalculatedPayment) where
  assign_missing :
      get p.currency_code nostro ≡ none
      → assign (p ∷ payments) nostro ≡ (
        (assign payments nostro).0,
        issue "payments" (no_nostro_account p.currency_code) ∷ (assign payments nostro).1,
      )
  unfolding assign
  assign_missing e = rw (e, assign) refl

  assign_found :
      (account : NostroAccount)
      → get p.currency_code nostro ≡ some account
      → assign (p ∷ payments) nostro
        ≡ ((p, account.account_number) ∷ (assign payments nostro).0, (assign payments nostro).1)
  unfolding assign
  assign_found account e = rw (e, assign) refl

module _ (nostro : Dict NostroAccount) where
  -- Every payment gets an account or an error.
  pub length-assign :
      (payments : List CalculatedPayment)
      → (let (assigned, errors) = assign payments nostro in
          length assigned + length errors ≡ length payments)
  unfolding assign
  length-assign [] = refl
  length-assign (p ∷ payments) = elim (Option-cases (get p.currency_code nostro)) [
    | inl e ↦ rw (assign_missing nostro p payments e) (omega (arith, length-assign payments))
    | inr (a, e) ↦ rw (assign_found nostro p payments a e) (omega (arith, length-assign payments))
  ]

  -- Whatever errors there are, each pair has the number of the account of the payment's currency.
  pub assign-IsAccountOf :
      (payments : List CalculatedPayment) → All (IsAccountOf nostro) (assign payments nostro).0
  unfolding assign
  assign-IsAccountOf [] = tt
  assign-IsAccountOf (p ∷ payments) = elim (Option-cases (get p.currency_code nostro)) [
    | inl e ↦ rw (assign_missing nostro p payments e) (assign-IsAccountOf payments)
    | inr (a, e) ↦
        rw (assign_found nostro p payments a e) ((a, e, refl), assign-IsAccountOf payments)
  ]

  -- Without errors the pairs are the payments, all of them and in their order.
  pub assign_complete :
      (payments : List CalculatedPayment)
      → (assign payments nostro).1 ≡ []
      → map (λ (pair : CalculatedPayment × String). pair.0) (assign payments nostro).0 ≡ payments
  unfolding assign
  assign_complete [] h = refl
  assign_complete (p ∷ payments) h = elim (Option-cases (get p.currency_code nostro)) [
    | inl e ↦
        elim (some_error _ _ (ap (λ r. r.1) (sym (assign_missing nostro p payments e)) ∙ h)) [ ]
    | inr (a, e) ↦
        let clean = ap (λ r. r.1) (sym (assign_found nostro p payments a e)) ∙ h in
        rw (assign_found nostro p payments a e) (ap (λ ps. p ∷ ps) (assign_complete payments clean))
  ]

  -- Two payments without errors have two accounts.
  pub assign_two :
      (p q : CalculatedPayment)
      → (assign (p ∷ q ∷ []) nostro).1 ≡ []
      → (a b : String) × ((assign (p ∷ q ∷ []) nostro).0 ≡ (p, a) ∷ (q, b) ∷ [])
  unfolding assign
  assign_two p q h = elim (Option-cases (get p.currency_code nostro)) [
    | inl e ↦
        elim (some_error _ _ (ap (λ r. r.1) (sym (assign_missing nostro p (q ∷ []) e)) ∙ h)) [ ]
    | inr (a, e) ↦
        let clean = ap (λ r. r.1) (sym (assign_found nostro p (q ∷ []) a e)) ∙ h in
        elim (Option-cases (get q.currency_code nostro)) [
          | inl f ↦
              elim (some_error _ _ (ap (λ r. r.1) (sym (assign_missing nostro q [] f)) ∙ clean)) [ ]
          | inr (b, f) ↦ (
            a.account_number,
            b.account_number,
            ap (λ r. r.0) (assign_found nostro p (q ∷ []) a e)
                ∙ ap (λ r. (p, a.account_number) ∷ r.0) (assign_found nostro q [] b f),
          )
        ]
  ]
