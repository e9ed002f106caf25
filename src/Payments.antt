-- ===== src/Payments.antt =====
-- src/fx_deal_manager/services/payment_calculator.py and nostro_assignment.py.
pub mod Amounts
pub mod Assignment
pub mod Rounding
use fx_deal_manager.Prelude.{ℕ, String, Option, none, some, List, [], ◌∷◌, Dict, get}
use fx_deal_manager.Decimal.{Decimal, times, quantize_cents}
use fx_deal_manager.Domain.{
  OperationDirection, buy, sell, PaymentDirection, incoming, outgoing, FxDeal, NostroAccount,
}
use fx_deal_manager.Issues.{Message, no_nostro_account, ValidationIssue, issue}

pub record CalculatedPayment : Type 0 where
  pub amount : Decimal
  pub currency_code : String
  pub payment_direction : PaymentDirection
  pub value_date : ℕ

-- `(deal.amount * deal.rate).quantize(...)`; `none` where `quantize` raises `InvalidOperation`.
unfoldable pub counter_amount : FxDeal → Option Decimal
counter_amount deal = quantize_cents (times deal.amount deal.rate)

abbrev leg : Decimal → String → PaymentDirection → ℕ → CalculatedPayment
leg amount code direction day = record {
  amount = amount;
  currency_code = code;
  payment_direction = direction;
  value_date = day;
}

unfoldable pub legs : OperationDirection → FxDeal → Decimal → ℕ → List CalculatedPayment
legs buy deal counter day =
    leg deal.amount deal.buy_currency incoming day
    ∷ leg counter deal.sell_currency outgoing day
    ∷ []
legs sell deal counter day =
    leg deal.amount deal.buy_currency outgoing day
    ∷ leg counter deal.sell_currency incoming day
    ∷ []

-- `PaymentCalculator.calculate`
unfoldable pub calculate : FxDeal → ℕ → Option (List CalculatedPayment)
unfolding counter_amount legs
calculate deal day = elim (counter_amount deal) [
  | none ↦ none
  | some counter ↦ some (legs deal.operation_direction deal counter day)
]

-- The loop of `NostroAssignmentService.assign`: the pairs assigned and the errors, in order. An
-- error has the two fields of an issue.
unfoldable pub assign :
    List CalculatedPayment
    → Dict NostroAccount
    → List (CalculatedPayment × String) × List ValidationIssue
assign [] nostro = ([], [])
assign (payment ∷ payments) nostro =
    let (assigned, errors) = assign payments nostro in
    elim (get payment.currency_code nostro) [
      | none ↦ (assigned, issue "payments" (no_nostro_account payment.currency_code) ∷ errors)
      | some account ↦ ((payment, account.account_number) ∷ assigned, errors)
    ]
