-- ===== src/Payments/Amounts.antt =====
-- The two payments that `PaymentCalculator.calculate` makes of a deal.
use fx_deal_manager.Prelude.{ℕ, ◌≡◌, refl, sym, ◌∙◌, none, some, List, Option-cases, inl, inr}
use mathlib.Core.Option.{some-injective}
use fx_deal_manager.Decimal.{Decimal}
use fx_deal_manager.Domain.{FxDeal}
use fx_deal_manager.Payments.{CalculatedPayment, calculate, counter_amount, legs}

pub calculate-none : (d : FxDeal) (day : ℕ) → counter_amount d ≡ none → calculate d day ≡ none
unfolding calculate
calculate-none d day e = rw (e, calculate) refl

pub calculate-some :
    (d : FxDeal) (day : ℕ) (counter : Decimal)
    → counter_amount d ≡ some counter
    → calculate d day ≡ some (legs d.operation_direction d counter day)
unfolding calculate
calculate-some d day counter e = rw (e, calculate) refl

none-some : {A : Type 0} (a : A) → none ≡ some a → ⊥
none-some a e = cc

-- Payments that are calculated are the two legs of the deal.
pub calculate-legs :
    (d : FxDeal) (day : ℕ) (ps : List CalculatedPayment)
    → calculate d day ≡ some ps
    → (counter : Decimal) × (counter_amount d ≡ some counter)
      × (ps ≡ legs d.operation_direction d counter day)
calculate-legs d day ps h = elim (Option-cases (counter_amount d)) [
  | inl e ↦ elim (none-some ps (sym (calculate-none d day e) ∙ h)) [ ]
  | inr (counter, e) ↦ (counter, e, some-injective _ _ (sym h ∙ calculate-some d day counter e))
]
